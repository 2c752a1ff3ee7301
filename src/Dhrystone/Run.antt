-- ===== src/Dhrystone/Run.antt =====
-- The loop of `main` in benchmarks/dhrystone/dhrystone_main.c.
use arc_tests.Prelude.{
  ℕ, zero, suc, ◌+◌, ◌-◌, ◌*◌, ◌/◌, ◌^◌, Option, none, some, not, leb, if◌then◌else◌, u8, u32,
  sub32, codes,
}
use arc_tests.Guest.Syscall.{◌>>=◌}
use arc_tests.Dhrystone.{
  Enumeration, ident_1, ident_2, ident_3, enum_eq, next_object, glob_object, Str30, Globals, put,
  slt,
}
use arc_tests.Dhrystone.Scalars.{
  proc_2, proc_4, proc_5, proc_6, proc_7, proc_8, func_1, func_2, set_at_2, from_bool,
}
use arc_tests.Dhrystone.Records.{proc_1}

abbrev pub some_string : Str30
some_string = codes "DHRYSTONE PROGRAM, SOME STRING"

abbrev pub first_string : Str30
first_string = codes "DHRYSTONE PROGRAM, 1'ST STRING"

abbrev pub second_string : Str30
second_string = codes "DHRYSTONE PROGRAM, 2'ND STRING"

abbrev pub third_string : Str30
third_string = codes "DHRYSTONE PROGRAM, 3'RD STRING"

-- The globals, and the local variables of `main`.
pub record State : Type 0 where
  pub globals : Globals
  pub int_1_loc : ℕ
  pub int_2_loc : ℕ
  pub int_3_loc : ℕ
  pub enum_loc : Enumeration
  pub str_1_loc : Str30
  pub str_2_loc : Str30

-- "Initializations", from any state: the records that are allocated hold anything.
unfoldable pub initialise : State → State
initialise s =
    let g = s.globals in
    let glob = record g.records.glob_record {
      ptr_comp = some next_object;
      discr = ident_1;
      enum_comp = ident_3;
      int_comp = 40;
      str_comp = some_string;
    } in
    record s {
      str_1_loc = first_string;
      globals = record (put glob_object glob g) {
        ptr_glob = some glob_object;
        next_ptr_glob = some next_object;
        arr_2_glob = set_at_2 g.arr_2_glob 8 7 10;
      };
    }

-- Division of `int`s, towards zero.
abbrev pub div32 : ℕ → ℕ → ℕ
div32 a b =
    if leb (2 ^ 31) a
    then (if leb (2 ^ 31) b then (2 ^ 32 - a) / (2 ^ 32 - b) else sub32 0 ((2 ^ 32 - a) / b))
    else if leb (2 ^ 31) b
    then sub32 0 (a / (2 ^ 32 - b))
    else a / b

-- `while (Int_1_Loc < Int_2_Loc)`. `Proc_7` overwrites the first value of `Int_3_Loc` and does not read it.
unfoldable pub raise : ℕ → State → Option State
raise zero s = none
raise (suc fuel) s =
    let int_3' = proc_7 s.int_1_loc s.int_2_loc in
    let rest = raise fuel (record s { int_3_loc = int_3'; int_1_loc = u32 (s.int_1_loc + 1) }) in
    if slt s.int_1_loc s.int_2_loc then rest else some s

-- The body of the loop over `Ch_Index`.
unfoldable pub visit : ℕ → ℕ → State → State
visit run_index ch_index s =
    let f = func_1 ch_index b'C' s.globals in
    let s₁ = record s { globals = f.1 } in
    if enum_eq s.enum_loc f.0
    then record s₁ {
      enum_loc = proc_6 f.1.int_glob ident_1;
      str_2_loc = third_string;
      int_2_loc = run_index;
      globals = record f.1 { int_glob = run_index };
    }
    else s₁

-- `for (Ch_Index = 'A'; Ch_Index <= Ch_2_Glob; ++Ch_Index)`.
unfoldable pub visit_all : ℕ → ℕ → ℕ → State → Option State
visit_all zero run_index ch_index s = none
visit_all (suc fuel) run_index ch_index s =
    let rest = visit_all fuel run_index (u8 (ch_index + 1)) (visit run_index ch_index s) in
    if leb ch_index s.globals.ch_2_glob then rest else some s

-- From `Proc_5` to `Proc_8`. The variables that `Func_2` and `Proc_2` do not set start as `unset_ch` and
-- `unset_enum`.
unfoldable pub run_front : ℕ → ℕ → State → Option State
run_front fuel unset_ch s =
    let g₁ = proc_4 (proc_5 s.globals) in
    let s₁ = record s {
      int_1_loc = 2;
      int_2_loc = 3;
      str_2_loc = second_string;
      enum_loc = ident_2;
    } in
    func_2 fuel unset_ch s₁.str_1_loc s₁.str_2_loc g₁ >>= λ f.
    let g₂ = record f.1 { bool_glob = from_bool (not f.0) } in
    raise fuel (record s₁ { globals = g₂ }) >>= λ s₂.
    some (record s₂ { globals = proc_8 s₂.int_1_loc s₂.int_3_loc s₂.globals })

-- From `Proc_1` to `Proc_2`.
unfoldable pub run_back : ℕ → Enumeration → ℕ → State → Option State
run_back fuel unset_enum run_index s = proc_1 s.globals.ptr_glob s.globals >>= λ g.
    visit_all fuel run_index b'A' (record s { globals = g }) >>= λ s₁.
    let int_2 = u32 (s₁.int_2_loc * s₁.int_1_loc) in
    let int_1 = div32 int_2 s₁.int_3_loc in
    let int_2' = sub32 (7 * sub32 int_2 s₁.int_3_loc) int_1 in
    proc_2 fuel unset_enum int_1 s₁.globals >>= λ int_1'.
    some (record s₁ { int_1_loc = int_1'; int_2_loc = int_2' })

-- One round of the loop over `Run_Index`.
unfoldable pub run_once : ℕ → ℕ → Enumeration → ℕ → State → Option State
run_once fuel unset_ch unset_enum run_index s =
    run_front fuel unset_ch s >>= run_back fuel unset_enum run_index

-- `for (Run_Index = 1; Run_Index <= Number_Of_Runs; ++Run_Index)`, with the rounds that are left.
unfoldable pub run_all : ℕ → ℕ → Enumeration → ℕ → ℕ → State → Option State
run_all fuel unset_ch unset_enum zero run_index s = some s
run_all fuel unset_ch unset_enum (suc left) run_index s =
    run_once fuel unset_ch unset_enum run_index s
    >>= run_all fuel unset_ch unset_enum left (run_index + 1)
