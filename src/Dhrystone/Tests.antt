-- ===== src/Dhrystone/Tests.antt =====
-- Runs of the benchmark, and the theorems at such runs.
use arc_tests.Prelude.{◌+◌, ◌≡◌, refl, none, some, [], u32}
use arc_tests.Dhrystone.{ident_1, ident_2, RecType, Globals}
use arc_tests.Dhrystone.Scalars.{proc_2, count_down}
use arc_tests.Dhrystone.Run.{State, initialise, run_all}
use arc_tests.Dhrystone.Final.{IsFinal, run_all-initialise}

abbrev pub empty_record : RecType
empty_record = record {
  ptr_comp = none;
  discr = ident_1;
  enum_comp = ident_1;
  int_comp = 0;
  str_comp = [];
}

-- The memory of a program that starts, with 'A' in `Ch_1_Glob`.
abbrev pub zeros : Globals
zeros = record {
  ptr_glob = none;
  next_ptr_glob = none;
  int_glob = 0;
  bool_glob = 0;
  ch_1_glob = b'A';
  ch_2_glob = 0;
  arr_1_glob = λ i. 0;
  arr_2_glob = λ i j. 0;
  records = record { next_record = empty_record; glob_record = empty_record };
}

abbrev pub blank : State
blank = record {
  globals = zeros;
  int_1_loc = 0;
  int_2_loc = 0;
  int_3_loc = 0;
  enum_loc = ident_1;
  str_1_loc = [];
  str_2_loc = [];
}

run_all-initialise_example :
    (s' : State) × (run_all 3 0 ident_1 500 1 (initialise blank) ≡ some s')
    × IsFinal s'
    × (s'.globals.arr_2_glob 8 7 ≡ u32 (10 + 500))
run_all-initialise_example = run_all-initialise 0 0 ident_1 499 blank

proc_2_in_main : proc_2 1 ident_2 1 (record zeros { int_glob = 5 }) ≡ some 5
unfolding proc_2 count_down
proc_2_in_main = refl
