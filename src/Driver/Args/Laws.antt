-- ===== src/Driver/Args/Laws.antt =====
-- Command lines of rocket/rocket-main.cpp.
use arc_tests.Prelude.{
  ◌≡◌, refl, ap, sym, ◌∙◌, true, false, Option, none, some, List, [], ◌∷◌, ◌++◌, codes,
}
use arc_tests.Driver.Args.{
  Text, Options, defaults, plain, flag_of, same_text, parse_loop, check_kept, parse_args,
}

-- An item of a command line, and how it is written.
pub data Item : Type 0 where
  only_arcs : Item
  only_vtor : Item
  trace : Text → Item

abbrev pub write : List Item → List Text → List Text
write [] rest = rest
write (only_arcs ∷ items) rest = codes "--arcs" ∷ write items rest
write (only_vtor ∷ items) rest = codes "--vtor" ∷ write items rest
write (trace file ∷ items) rest = codes "--trace" ∷ file ∷ write items rest

-- What an item asks for.
abbrev pub ask : Options → List Item → Options
ask o [] = o
ask o (only_arcs ∷ items) = ask (record o { run_all = false; run_arcs = true }) items
ask o (only_vtor ∷ items) = ask (record o { run_all = false; run_vtor = true }) items
ask o (trace file ∷ items) = ask (record o { vcd_output_file = some file }) items

parse_loop-write :
    (items : List Item) (rest : List Text) (o : Options)
    → parse_loop (write items rest) false o ≡ parse_loop rest false (ask o items)
unfolding parse_loop flag_of same_text
parse_loop-write [] rest o = refl
parse_loop-write (only_arcs ∷ items) rest o = parse_loop-write items rest _
parse_loop-write (only_vtor ∷ items) rest o = parse_loop-write items rest _
parse_loop-write (trace file ∷ items) rest o = parse_loop-write items rest _

ask-append : (xs ys : List Item) (o : Options) → ask o (xs ++ ys) ≡ ask (ask o xs) ys
ask-append [] ys o = refl
ask-append (only_arcs ∷ xs) ys o = ask-append xs ys _
ask-append (only_vtor ∷ xs) ys o = ask-append xs ys _
ask-append (trace file ∷ xs) ys o = ask-append xs ys _

ask_kept : (items : List Item) (o : Options) → (ask o items).kept ≡ o.kept
ask_kept [] o = refl
ask_kept (only_arcs ∷ items) o = ask_kept items _
ask_kept (only_vtor ∷ items) o = ask_kept items _
ask_kept (trace file ∷ items) o = ask_kept items _

-- Keeping an argument and asking for options do not mix.
ask-keep :
    (items : List Item) (o : Options) (kept : List Text)
    → ask (record o { kept = kept }) items ≡ record (ask o items) { kept = kept }
ask-keep [] o kept = refl
ask-keep (only_arcs ∷ items) o kept =
    ask-keep items (record o { run_all = false; run_arcs = true }) kept
ask-keep (only_vtor ∷ items) o kept =
    ask-keep items (record o { run_all = false; run_vtor = true }) kept
ask-keep (trace file ∷ items) o kept =
    ask-keep items (record o { vcd_output_file = some file }) kept

parse_loop-plain :
    (binary : Text) (rest : List Text) (o : Options)
    → flag_of binary ≡ plain
    → parse_loop (binary ∷ rest) false o
      ≡ parse_loop rest false (record o { kept = o.kept ++ (binary ∷ []) })
unfolding parse_loop
parse_loop-plain binary rest o h = rw (h, parse_loop) refl

-- The loop over flags, the program, and what follows.
parse_loop-mixed :
    (before after : List Item) (binary : Text) (rest : List Text)
    → flag_of binary ≡ plain
    → parse_loop (write before (binary ∷ write after rest)) false defaults
      ≡ parse_loop rest false (record (ask defaults (before ++ after)) { kept = binary ∷ [] })
parse_loop-mixed before after binary rest h =
    let o = ask defaults before in
    let kept : o.kept ++ (binary ∷ []) ≡ binary ∷ [] =
      ap (λ l. l ++ (binary ∷ [])) (ask_kept before defaults) in
    parse_loop-write before (binary ∷ write after rest) defaults
    ∙ parse_loop-plain binary (write after rest) o h
    ∙ ap (λ l. parse_loop (write after rest) false (record o { kept = l })) kept
    ∙ parse_loop-write after rest (record o { kept = binary ∷ [] })
    ∙ ap (parse_loop rest false) (
        ask-keep after o (binary ∷ [])
        ∙ ap (λ (r : Options). record r { kept = binary ∷ [] })
            (sym (ask-append before after defaults)))

parse_args-loop :
    (args : List Text) (r : Option Options)
    → parse_loop args false defaults ≡ r
    → parse_args args
      ≡ (elim r as (λ _. Option (Options × Text)) [ none ↦ none | some o ↦ check_kept o o.kept ])
unfolding parse_args
parse_args-loop args r e =
    ap
      (λ r. elim r as (λ _. Option (Options × Text)) [ none ↦ none | some o ↦ check_kept o o.kept ])
      e

-- Flags in front of the program and behind it are read as what they ask for, in order, for a program that is
-- not spelled like a flag, and any trace files. The line is refused if a `--trace` with no file follows, or if
-- it names no program.
pub parse_args-write :
    (before after : List Item) (binary : Text)
    → flag_of binary ≡ plain
    → (parse_args (write before (binary ∷ write after []))
        ≡ some (record (ask defaults (before ++ after)) { kept = binary ∷ [] }, binary))
      × (parse_args (write before (binary ∷ write after (codes "--trace" ∷ []))) ≡ none)
      × (parse_args (write before []) ≡ none)
unfolding parse_loop flag_of same_text check_kept
parse_args-write before after binary h = (
  parse_args-loop _ _ (parse_loop-mixed before after binary [] h),
  parse_args-loop _ _ (parse_loop-mixed before after binary (codes "--trace" ∷ []) h),
  parse_args-loop _ _ (parse_loop-write before [] defaults)
      ∙ ap (check_kept (ask defaults before)) (ask_kept before defaults),
)
