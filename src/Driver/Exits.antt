-- ===== src/Driver/Exits.antt =====
-- The exits of `main` in rocket/rocket-main.cpp, with models that agree.
use arc_tests.Prelude.{
  ◌≡◌, ◌≢◌, ◌⊎◌, inl, inr, refl, ◌||◌, Bool-cases, Option, none, some, Option-cases, List, [], ◌∷◌,
  arith,
}
use arc_tests.Host.Memory.{Memory}
use arc_tests.Host.Loader.{Segment, load}
use arc_tests.Driver.{Design}
use arc_tests.Driver.Args.{Text, Options, parse_args}
use arc_tests.Driver.Compare.{Comparing}
use arc_tests.Driver.Dispatch.{Object, vtor, arcs, either}
use arc_tests.Driver.Lockstep.{
  IsAgreement, AllAgree, Agree, InStep, reset_rounds-InStep, simulate-ne-one,
}
use arc_tests.Driver.Loop.{returned}
use arc_tests.Driver.Main.{
  empty_memory, max_rounds, allocate, start_trace, run_models, run_program, main,
}
use arc_tests.Driver.Trace.{extend_file, start_traces, vcd_start}

module _ {M : Type 0} (d : Design M) (R : M → M → Type 0) (a : IsAgreement d R) where
  start_traces-AllAgree :
      (file f : Text) (m : M) (ms ms' : List M)
      → AllAgree d R m ms
      → start_traces d file ms ≡ some ms'
      → AllAgree d R (d.vcd_start f m) ms'
  unfolding start_traces
  start_traces-AllAgree file f m [] ms' h e =
      let same : [] ≡ ms' = ground (arith, e) in rw (← same) tt
  start_traces-AllAgree file f m (x ∷ xs) ms' h e =
      elim (Option-cases (extend_file file (d.name x))) [
        | inl stop ↦ absurd (ground (arith, stop, e))
        | inr (g, one) ↦ elim (Option-cases (start_traces d file xs)) [
          | inl stop ↦ absurd (ground (arith, one, stop, e))
          | inr (rest, two) ↦
              let same : d.vcd_start g x ∷ rest ≡ ms' = ground (arith, one, two, e) in
              rw (← same) (a.vcd_start f g m x h.0, start_traces-AllAgree file f m xs rest h.1 two)
        ]
      ]

  start_traces-Agree :
      (file : Text) (ms ms' : List M)
      → Agree d R ms
      → start_traces d file ms ≡ some ms'
      → Agree d R ms'
  unfolding start_traces
  start_traces-Agree file [] ms' h e = let same : [] ≡ ms' = ground (arith, e) in rw (← same) tt
  start_traces-Agree file (m ∷ ms) ms' h e = elim (Option-cases (extend_file file (d.name m))) [
    | inl stop ↦ absurd (ground (arith, stop, e))
    | inr (g, one) ↦ elim (Option-cases (start_traces d file ms)) [
      | inl stop ↦ absurd (ground (arith, one, stop, e))
      | inr (rest, two) ↦
          let same : d.vcd_start g m ∷ rest ≡ ms' = ground (arith, one, two, e) in
          rw (← same) (start_traces-AllAgree file g m ms rest h two)
    ]
  ]

  vcd_start-InStep :
      (file : Text) (c c' : Comparing M)
      → InStep d R a c
      → vcd_start d file c ≡ some c'
      → InStep d R a c'
  unfolding vcd_start
  vcd_start-InStep file c c' s e = elim (Option-cases (start_traces d file c.models)) [
    | inl stop ↦ absurd (ground (arith, stop, e))
    | inr (ms, one) ↦
        let same : record c { models = ms } ≡ c' = ground (arith, one, e) in
        rw (← same)
          (record { agree = start_traces-Agree file c.models ms s.agree one; clean = s.clean })
  ]

module _ {V A : Type 0} (dv : Design V) (da : Design A) (new_vtor : V) (new_arcs : A)
    (R : Object V A → Object V A → Type 0) (a : IsAgreement (either dv da) R)
    (fresh : R (vtor new_vtor) (arcs new_arcs)) where
  allocate-Agree : (o : Options) → Agree (either dv da) R (allocate new_vtor new_arcs o)
  unfolding allocate
  allocate-Agree o = elim (Bool-cases (o.run_all || o.run_vtor)) [
    | inl one ↦ elim (Bool-cases (o.run_all || o.run_arcs)) [
      | inl two ↦ rw (one, two) (fresh, tt)
      | inr two ↦ rw (one, two) tt
    ]
    | inr one ↦ elim (Bool-cases (o.run_all || o.run_arcs)) [
      | inl two ↦ rw (one, two) tt
      | inr two ↦ rw (one, two) tt
    ]
  ]

  start_trace-InStep :
      (file : Option Text) (c c' : Comparing (Object V A))
      → InStep (either dv da) R a c
      → start_trace dv da file c ≡ some c'
      → InStep (either dv da) R a c'
  unfolding start_trace
  start_trace-InStep none c c' s e = let same : c ≡ c' = ground (arith, e) in rw (← same) s
  start_trace-InStep (some file) c c' s e = vcd_start-InStep (either dv da) R a file c c' s e

  run_models-ne-one :
      (memory : Memory) (c : Comparing (Object V A))
      → InStep (either dv da) R a c
      → run_models dv da memory c ≢ returned 1
  unfolding run_models
  run_models-ne-one memory c s =
      simulate-ne-one (either dv da) R a max_rounds _
        (reset_rounds-InStep (either dv da) R a 1000 0 c s)

  run_program-ne-one :
      (o : Options) (memory : Memory) → run_program dv da new_vtor new_arcs o memory ≢ returned 1
  unfolding run_program
  run_program-ne-one o memory e =
      let unused : Comparing (Object V A) = record {
        models = allocate new_vtor new_arcs o;
        cycle = 0;
        num_mismatches = 0;
      } in
      let s : InStep (either dv da) R a unused = record {
        agree = allocate-Agree o;
        clean = refl;
      } in
      elim (Option-cases (start_trace dv da o.vcd_output_file unused)) [
        | inl stop ↦ absurd (ground (arith, stop, e))
        | inr (c, one) ↦
            run_models-ne-one memory c (start_trace-InStep o.vcd_output_file unused c s one)
              (ground (arith, one, e))
      ]

-- Why a program may return 1 without a simulation: its arguments, or a file that ELFIO cannot open.
abbrev pub IsRefused : (Text → Option (List Segment)) → List Text → Type 0
IsRefused elf_load args =
    (parse_args args ≡ none)
    ⊎ ((o : Options) × (binary : Text) × (parse_args args ≡ some (o, binary))
        × (elf_load binary ≡ none))

-- Or the loader starts.
abbrev pub IsLoading : (Text → Option (List Segment)) → List Text → Type 0
IsLoading elf_load args =
    (o : Options) × (binary : Text) × (segments : List Segment) × (parse_args args
      ≡ some (o, binary))
    × (elf_load binary ≡ some segments)

pub IsRefused-or_IsLoading :
    (elf_load : Text → Option (List Segment)) (args : List Text)
    → IsRefused elf_load args ⊎ IsLoading elf_load args
IsRefused-or_IsLoading elf_load args = elim (Option-cases (parse_args args)) [
  | inl stop ↦ inl (inl stop)
  | inr ((o, binary), one) ↦ elim (Option-cases (elf_load binary)) [
    | inl closed ↦ inl (inr (o, binary, one, closed))
    | inr (segments, two) ↦ inr (o, binary, segments, one, two)
  ]
]

module _ {V A : Type 0} (dv : Design V) (da : Design A) (new_vtor : V) (new_arcs : A)
    (R : Object V A → Object V A → Type 0) (a : IsAgreement (either dv da) R)
    (fresh : R (vtor new_vtor) (arcs new_arcs)) (elf_load : Text → Option (List Segment)) where
  pub main-ne-one :
      (args : List Text)
      → IsLoading elf_load args
      → main dv da new_vtor new_arcs elf_load args ≢ some (returned 1)
  unfolding main
  main-ne-one args (o, binary, segments, one, two) e =
      elim (Option-cases (load empty_memory segments)) [
        | inl stop ↦ absurd (ground (arith, one, two, stop, e))
        | inr (memory, three) ↦
            run_program-ne-one dv da new_vtor new_arcs R a fresh o memory
              (ground (arith, one, two, three, e))
      ]
