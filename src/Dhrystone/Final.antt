-- ===== src/Dhrystone/Final.antt =====
-- What the runs of benchmarks/dhrystone/dhrystone_main.c leave: the "Final values of the variables".
use arc_tests.Prelude.{ℕ, zero, suc, ◌+◌, ◌<◌, ◌^◌, ◌≡◌, refl, some, arith, u32}
use arc_tests.Guest.Cstring.{difference}
use arc_tests.Dhrystone.{Enumeration, ident_1, ident_2, ident_3, next_object, glob_object, RecType}
use arc_tests.Dhrystone.Scalars.{
  proc_2, proc_4, proc_5, proc_6, proc_7, proc_8, func_1, func_2, func_2_end, func_3, scan, char_at,
  count_down, fill_arr_1, fill_row, set_at_2,
}
use arc_tests.Dhrystone.Records.{proc_1, proc_1_copy, proc_1_then, proc_3}
use arc_tests.Dhrystone.Run.{
  State, some_string, first_string, second_string, initialise, raise, visit, visit_all, run_front,
  run_back, run_once, run_all,
}

-- The record of `Ptr_Glob`, whatever its `Int_Comp`.
abbrev glob_with : ℕ → RecType
glob_with n = record {
  ptr_comp = some next_object;
  discr = ident_1;
  enum_comp = ident_3;
  int_comp = n;
  str_comp = some_string;
}

abbrev next_final : RecType
next_final = record {
  ptr_comp = some next_object;
  discr = ident_1;
  enum_comp = ident_2;
  int_comp = 18;
  str_comp = some_string;
}

-- The state behind a run.
abbrev after : State → State
after s = record {
  globals = record (proc_8 3 7 s.globals) {
    int_glob = 5;
    bool_glob = 1;
    ch_1_glob = b'A';
    ch_2_glob = b'B';
    records = record { next_record = next_final; glob_record = glob_with 17 };
  };
  int_1_loc = 5;
  int_2_loc = 13;
  int_3_loc = 7;
  enum_loc = ident_2;
  str_1_loc = s.str_1_loc;
  str_2_loc = second_string;
}

-- What a run starts from.
record IsReady (s : State) : Type 0 where
  ptr : s.globals.ptr_glob ≡ some glob_object
  glob : (n : ℕ) × (s.globals.records.glob_record ≡ glob_with n)
  str : s.str_1_loc ≡ first_string

-- A state that is ready, written out.
abbrev ready : ℕ → State → State
ready n s = record s {
  globals = record s.globals {
    ptr_glob = some glob_object;
    records = record s.globals.records { glob_record = glob_with n };
  };
  str_1_loc = first_string;
}

run_once-ready :
    (fuel unset_ch : ℕ) (unset_enum : Enumeration) (run_index n : ℕ) (s : State)
    → run_once (suc (suc (suc fuel))) unset_ch unset_enum run_index (ready n s)
      ≡ some (after (ready n s))
unfolding run_once run_front run_back proc_1 proc_1_copy proc_3 proc_1_then proc_6 proc_7 visit_all
    visit func_1 func_3 proc_2 count_down func_2 scan char_at func_2_end difference raise proc_8
    proc_5 proc_4
run_once-ready fuel unset_ch unset_enum run_index n s = refl

IsReady-ready : (s : State) (h : IsReady s) → ready h.glob.0 s ≡ s
IsReady-ready s h = rw (← h.ptr, ← h.glob.1, ← h.str) refl

run_once_lem :
    (fuel unset_ch : ℕ) (unset_enum : Enumeration) (run_index : ℕ) (s : State)
    → IsReady s
    → run_once (suc (suc (suc fuel))) unset_ch unset_enum run_index s ≡ some (after s)
run_once_lem fuel unset_ch unset_enum run_index s h =
    let e = IsReady-ready s h in
    rw (← e) (run_once-ready fuel unset_ch unset_enum run_index h.glob.0 s)

-- The values that the comments of `main` promise for the end, but for `Arr_2_Glob[8][7]`.
pub record IsFinal (s : State) : Type 0 where
  pub int_glob : s.globals.int_glob ≡ 5
  pub bool_glob : s.globals.bool_glob ≡ 1
  pub ch_1_glob : s.globals.ch_1_glob ≡ b'A'
  pub ch_2_glob : s.globals.ch_2_glob ≡ b'B'
  pub arr_1_glob : s.globals.arr_1_glob 8 ≡ 7
  pub ptr_glob : s.globals.ptr_glob ≡ some glob_object
  pub next_ptr_glob : s.globals.next_ptr_glob ≡ some next_object
  pub glob_record : s.globals.records.glob_record ≡ glob_with 17
  pub next_record : s.globals.records.next_record ≡ next_final
  pub int_1_loc : s.int_1_loc ≡ 5
  pub int_2_loc : s.int_2_loc ≡ 13
  pub int_3_loc : s.int_3_loc ≡ 7
  pub enum_loc : s.enum_loc ≡ ident_2
  pub str_1_loc : s.str_1_loc ≡ first_string
  pub str_2_loc : s.str_2_loc ≡ second_string

IsFinal-IsReady : (s : State) → IsFinal s → IsReady s
IsFinal-IsReady s f = record { ptr = f.ptr_glob; glob = (17, f.glob_record); str = f.str_1_loc }

after-IsFinal :
    (s : State) → IsReady s → s.globals.next_ptr_glob ≡ some next_object → IsFinal (after s)
unfolding proc_8 fill_arr_1 fill_row set_at_2
after-IsFinal s r next = record {
  int_glob = refl;
  bool_glob = refl;
  ch_1_glob = refl;
  ch_2_glob = refl;
  arr_1_glob = refl;
  ptr_glob = r.ptr;
  next_ptr_glob = next;
  glob_record = refl;
  next_record = refl;
  int_1_loc = refl;
  int_2_loc = refl;
  int_3_loc = refl;
  enum_loc = refl;
  str_1_loc = r.str;
  str_2_loc = refl;
}

after-arr_2_glob :
    (s : State) → (after s).globals.arr_2_glob 8 7 ≡ u32 (s.globals.arr_2_glob 8 7 + 1)
unfolding proc_8 fill_arr_1 fill_row set_at_2
after-arr_2_glob s = refl

run_all-IsFinal :
    (fuel unset_ch : ℕ) (unset_enum : Enumeration) (left run_index : ℕ) (s : State)
    → IsFinal s
    → s.globals.arr_2_glob 8 7 < 2 ^ 32
    → (s' : State) × (run_all (suc (suc (suc fuel))) unset_ch unset_enum left run_index s ≡ some s')
      × IsFinal s'
      × (s'.globals.arr_2_glob 8 7 ≡ u32 (s.globals.arr_2_glob 8 7 + left))
unfolding run_all
run_all-IsFinal fuel unset_ch unset_enum zero run_index s f fits = (s, refl, f, omega (arith, fits))
run_all-IsFinal fuel unset_ch unset_enum (suc left) run_index s f fits =
    let r = IsFinal-IsReady s f in
    let count = after-arr_2_glob s in
    let (s', runs, f', count') =
      run_all-IsFinal fuel unset_ch unset_enum left (run_index + 1) (after s)
        (after-IsFinal s r f.next_ptr_glob) (omega (arith, count)) in
    (
      s',
      rw (run_once_lem fuel unset_ch unset_enum run_index s r) runs,
      f',
      omega (arith, count, count'),
    )

-- From any state in front of the initializations, whatever the variables hold that the code does not set, and
-- with fuel 3 or more for the inner loops, the loop of `main` over one or more runs ends. Then the variables
-- have the values that the comments of `main` promise, and `Arr_2_Glob[8][7]` is 10 more than the number of
-- runs, modulo 2 ^ 32.
pub run_all-initialise :
    (fuel unset_ch : ℕ) (unset_enum : Enumeration) (runs : ℕ) (s : State)
    → (s' : State) × (run_all (suc (suc (suc fuel))) unset_ch unset_enum (suc runs) 1 (initialise s)
        ≡ some s')
      × IsFinal s'
      × (s'.globals.arr_2_glob 8 7 ≡ u32 (10 + suc runs))
unfolding run_all initialise set_at_2 proc_8
run_all-initialise fuel unset_ch unset_enum runs s =
    let s₀ = initialise s in
    let r : IsReady s₀ = record { ptr = refl; glob = (40, refl); str = refl } in
    let count : (after s₀).globals.arr_2_glob 8 7 ≡ 11 = after-arr_2_glob s₀ in
    let (s', ends, f', count') =
      run_all-IsFinal fuel unset_ch unset_enum runs 2 (after s₀) (after-IsFinal s₀ r refl)
        (omega (arith, count)) in
    (s', rw (run_once_lem fuel unset_ch unset_enum 1 s₀ r) ends, f', omega (arith, count, count'))
