-- ===== src/Driver/Args.antt =====
-- "Process CLI arguments" of rocket/rocket-main.cpp.
pub mod Laws
pub mod Tests
use arc_tests.Prelude.{
  ℕ, Bool, true, false, Option, none, some, ◌==◌, ◌&&◌, if◌then◌else◌, List, [], ◌∷◌, ◌++◌, codes,
}

abbrev pub Text : Type 0
Text = List ℕ

-- `strcmp(…) == 0`.
unfoldable pub same_text : Text → Text → Bool
same_text [] [] = true
same_text [] (d ∷ ds) = false
same_text (c ∷ cs) [] = false
same_text (c ∷ cs) (d ∷ ds) = c == d && same_text cs ds

-- The variables `opt…`, and the arguments that are kept in front of `argOut`.
pub record Options : Type 0 where
  pub run_all : Bool
  pub run_arcs : Bool
  pub run_vtor : Bool
  pub vcd_output_file : Option Text
  pub kept : List Text

abbrev pub defaults : Options
defaults = record {
  run_all = true;
  run_arcs = false;
  run_vtor = false;
  vcd_output_file = none;
  kept = [];
}

pub data Flag : Type 0 where
  arcs_flag vtor_flag trace_flag plain : Flag

unfoldable pub flag_of : Text → Flag
flag_of arg =
    if same_text arg (codes "--arcs")
    then arcs_flag
    else if same_text arg (codes "--vtor")
    then vtor_flag
    else if same_text arg (codes "--trace")
    then trace_flag
    else plain

-- The loop. The test is true while `--trace` waits for its file; `none` is the return for a missing one.
unfoldable pub parse_loop : List Text → Bool → Options → Option Options
parse_loop [] true o = none
parse_loop [] false o = some o
parse_loop (file ∷ args) true o = parse_loop args false (record o { vcd_output_file = some file })
parse_loop (arg ∷ args) false o = elim (flag_of arg) [
  | arcs_flag ↦ parse_loop args false (record o { run_all = false; run_arcs = true })
  | vtor_flag ↦ parse_loop args false (record o { run_all = false; run_vtor = true })
  | trace_flag ↦ parse_loop args true o
  | plain ↦ parse_loop args false (record o { kept = o.kept ++ (arg ∷ []) })
]

-- `argc != 2`.
unfoldable pub check_kept : Options → List Text → Option (Options × Text)
check_kept o [] = none
check_kept o (binary ∷ []) = some (o, binary)
check_kept o (binary ∷ arg ∷ args) = none

-- What stands behind `argv[0]` is parsed; `none` is a return with 1, for a missing file or with the usage.
unfoldable pub parse_args : List Text → Option (Options × Text)
parse_args args = elim (parse_loop args false defaults) [
  | none ↦ none
  | some o ↦ check_kept o o.kept
]
