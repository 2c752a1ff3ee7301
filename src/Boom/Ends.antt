-- ===== src/Boom/Ends.antt =====
-- When the programs of rocket/rocket-main.cpp and boom/boom-main.cpp come to their end.
use arc_tests.Prelude.{◌≡◌, ◌↔◌, arith, true, Option, none, some, Option-cases, inl, inr, List}
use mathlib.Core.Path.{subst}
use arc_tests.Host.Endless.{any_endless, load-eq-none_iff}
use arc_tests.Host.Loader.{Segment, load}
use arc_tests.Driver.{Design}
use arc_tests.Driver.Args.{Text, Options, parse_args}
use arc_tests.Driver.Main.{empty_memory}
use arc_tests.Driver.Main as Rocket
use arc_tests.Boom.Main.{main}
use arc_tests.Boom.Same.{main_same}

-- The arguments name a file that ELFIO opens, and one of its segments is loaded and has 4 gigabytes or more.
abbrev pub AsksForTooMuch : (Text → Option (List Segment)) → List Text → Type 0
AsksForTooMuch elf_load args =
    (o : Options) × (binary : Text) × (segments : List Segment) × (parse_args args
      ≡ some (o, binary))
    × (elf_load binary ≡ some segments)
    × (any_endless segments ≡ true)

module _ {V A : Type 0} (dv : Design V) (da : Design A) (new_vtor : V) (new_arcs : A)
    (elf_load : Text → Option (List Segment)) where
  load_none :
      (o : Options) (binary : Text) (segments : List Segment) (args : List Text)
      → parse_args args ≡ some (o, binary)
      → elf_load binary ≡ some segments
      → Rocket.main dv da new_vtor new_arcs elf_load args ≡ none
      → load empty_memory segments ≡ none
  unfolding Rocket.main
  load_none o binary segments args one two e = elim (Option-cases (load empty_memory segments)) [
    | inl never ↦ never
    | inr (memory, three) ↦ absurd (ground (arith, one, two, three, e))
  ]

  Rocket-main-eq-none_iff :
      (args : List Text)
      → (Rocket.main dv da new_vtor new_arcs elf_load args ≡ none) ↔ AsksForTooMuch elf_load args
  unfolding Rocket.main
  Rocket-main-eq-none_iff args = elim (Option-cases (parse_args args)) [
    | inl failed ↦ (
      λ e. absurd (ground (arith, failed, e)),
      λ (o, binary, segments, one, two, big). absurd (ground (arith, failed, one)),
    )
    | inr ((o, binary), one) ↦ elim (Option-cases (elf_load binary)) [
      | inl closed ↦ (
        λ e. absurd (ground (arith, one, closed, e)),
        λ (o', binary', segments, one', two, big). absurd (ground (arith, one, closed, one', two)),
      )
      | inr (segments, two) ↦
          let loads = load-eq-none_iff segments empty_memory in
          (
            λ e. (
              o,
              binary,
              segments,
              one,
              two,
              loads.0 (load_none o binary segments args one two e),
            ),
            λ (o', binary', segments', one', two', big).
                let same : segments' ≡ segments = ground (arith, one, two, one', two') in
                let never = loads.1 (subst (λ segs. any_endless segs ≡ true) same big) in
                ground (arith, one, two, never),
          )
    ]
  ]

  -- Whatever their two designs do, the programs of both cores fail to come to an end exactly if the arguments name a
  -- file that ELFIO opens and that has a segment to load of 4 gigabytes or more: then the loader runs for ever.
  pub mains-eq-none_iff :
      (args : List Text)
      → ((Rocket.main dv da new_vtor new_arcs elf_load args ≡ none) ↔ AsksForTooMuch elf_load args)
        × ((main dv da new_vtor new_arcs elf_load args ≡ none) ↔ AsksForTooMuch elf_load args)
  mains-eq-none_iff args =
      let rocket = Rocket-main-eq-none_iff args in
      (rocket, rw (main_same dv da new_vtor new_arcs elf_load args) rocket)
