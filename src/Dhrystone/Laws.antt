-- ===== src/Dhrystone/Laws.antt =====
-- The procedures of benchmarks/dhrystone on any arguments.
use arc_tests.Prelude.{
  ℕ, zero, suc, ◌+◌, ◌<◌, ◌≤◌, ◌^◌, ◌≡◌, inl, inr, refl, ap, none, some, false, if◌then◌else◌,
  arith, u32, sub32, ◌==◌, ◌&&◌, ◌||◌, Bool-cases,
}
use arc_tests.Dhrystone.{Enumeration, ident_1, enum_eq, Globals}
use arc_tests.Dhrystone.Scalars.{proc_2, proc_8, count_down, fill_arr_1, fill_row, set_at_2}

-- One cell of a second array behind an assignment.
set_at_2_lem :
    (b : ℕ → ℕ → ℕ) (row column x i j : ℕ)
    → set_at_2 b row column x i j ≡ (if i == row && j == column then x else b i j)
unfolding set_at_2
set_at_2_lem b row column x i j = ground arith

fill_row_two : (l : ℕ) (b : ℕ → ℕ → ℕ) → fill_row 2 l l b ≡ set_at_2 (set_at_2 b l l l) l (l + 1) l
unfolding fill_row
fill_row_two l b = refl

fill_arr_1_own : (l int_2 : ℕ) (a : ℕ → ℕ) → fill_arr_1 l int_2 a l ≡ int_2
unfolding fill_arr_1
fill_arr_1_own l int_2 a = ground arith

-- `Proc_8` with a first number from 0 to 14 and `l` five above it: the cells `l` and `l + 1` of the first array
-- get the second number, and cell `l + 30` gets `l`. In row `l` of the second array, cells `l` and `l + 1` get
-- `l` and cell `l - 1` is counted up; cell `l` of row `l + 20` gets the second number. All other cells of both
-- are kept.
proc_8_lem :
    (int_1 int_2 : ℕ) (g : Globals)
    → int_1 ≤ 14
    → ((i : ℕ)
        → (proc_8 int_1 int_2 g).arr_1_glob i ≡ (
            if i == int_1 + 5 || i == int_1 + 6
            then int_2
            else if i == int_1 + 35
            then int_1 + 5
            else g.arr_1_glob i))
      × ((i j : ℕ)
          → (proc_8 int_1 int_2 g).arr_2_glob i j ≡ (
              if i == int_1 + 5
              then (if j == int_1 + 5 || j == int_1 + 6
                  then int_1 + 5
                  else if j == int_1 + 4
                  then u32 (g.arr_2_glob i j + 1)
                  else g.arr_2_glob i j)
              else if i == int_1 + 25 && j == int_1 + 5
              then int_2
              else g.arr_2_glob i j))
unfolding proc_8 fill_arr_1
proc_8_lem int_1 int_2 g h = (
  λ i. ground arith,
  λ i j.
      let l = int_1 + 5 in
      rw (fill_row_two l g.arr_2_glob, fill_arr_1_own l int_2 g.arr_1_glob)
        (grind (arith, set_at_2_lem)),
)

count_down-loops :
    (fuel : ℕ) (unset : Enumeration) (int_loc int_par : ℕ) (g : Globals)
    → (g.ch_1_glob == b'A') ≡ false
    → enum_eq unset ident_1 ≡ false
    → count_down fuel unset int_loc int_par g ≡ none
unfolding count_down
count_down-loops zero unset int_loc int_par g miss other = refl
count_down-loops (suc fuel) unset int_loc int_par g miss other =
    rw (miss, other, count_down-loops fuel unset int_loc int_par g miss other) refl

-- Where `Int_Glob` has 32 bits, `Proc_2` returns exactly if `Ch_1_Glob` is 'A' or the variable that it does not
-- set happens to be `Ident_1`. In the first case it has added 9 and subtracted `Int_Glob`, modulo 2 ^ 32; in
-- the second it has kept the number.
proc_2_lem :
    (fuel : ℕ) (unset : Enumeration) (int_par : ℕ) (g : Globals)
    → g.int_glob < 2 ^ 32
    → proc_2 (suc fuel) unset int_par g ≡ (
        if g.ch_1_glob == b'A'
        then some (sub32 (int_par + 9) g.int_glob)
        else if enum_eq unset ident_1
        then some int_par
        else none)
unfolding proc_2 count_down
proc_2_lem fuel unset int_par g h₂ = elim (Bool-cases (g.ch_1_glob == b'A')) [
  | inl hit ↦ rw hit (ap some (omega (arith, h₂)))
  | inr miss ↦ elim (Bool-cases (enum_eq unset ident_1)) [
    | inl first ↦ rw (miss, first) refl
    | inr other ↦
        rw (miss, other) (count_down-loops fuel unset (u32 (int_par + 10)) int_par g miss other)
  ]
]
