-- ===== src/Dhrystone/Scalars.antt =====
-- The procedures and functions of benchmarks/dhrystone on numbers, arrays and texts.
use arc_tests.Prelude.{
  ℕ, zero, suc, ◌+◌, Option, none, some, Bool, true, false, not, ltb, leb, ◌==◌, ◌&&◌,
  if◌then◌else◌, [], ◌∷◌, u32, sub32, bit_or,
}
use arc_tests.Prelude.Int.{pos, ltb_ℤ}
use arc_tests.Guest.Cstring.{difference}
use arc_tests.Dhrystone.{
  Enumeration, ident_1, ident_2, ident_3, ident_4, ident_5, enum_eq, Str30, Globals, slt,
}

unfoldable pub func_3 : Enumeration → Bool
func_3 enum_par = enum_eq enum_par ident_3

-- The value of `*Enum_Ref_Par` after the call.
unfoldable pub proc_6 : ℕ → Enumeration → Enumeration
proc_6 int_glob v =
    let first = if func_3 v then v else ident_4 in
    elim v [
      | ident_1 ↦ ident_1
      | ident_2 ↦ if slt 100 int_glob then ident_1 else ident_4
      | ident_3 ↦ ident_2
      | ident_4 ↦ first
      | ident_5 ↦ ident_3
    ]

-- The value of `*Int_Par_Ref` after the call.
unfoldable pub proc_7 : ℕ → ℕ → ℕ
proc_7 int_1 int_2 = let int_loc = u32 (int_1 + 2) in u32 (int_2 + int_loc)

-- `array[index] = x`.
abbrev pub set_at {ℓ} : {A : Type ℓ} → (ℕ → A) → ℕ → A → ℕ → A
set_at array index x i = if i == index then x else array i

unfoldable pub set_at_2 : (ℕ → ℕ → ℕ) → ℕ → ℕ → ℕ → ℕ → ℕ → ℕ
set_at_2 array row column x = set_at array row (set_at (array row) column x)

-- The part of `Proc_8` on the first array.
unfoldable pub fill_arr_1 : ℕ → ℕ → (ℕ → ℕ) → ℕ → ℕ
fill_arr_1 int_loc int_2 a =
    let a₁ = set_at a int_loc int_2 in
    let a₂ = set_at a₁ (int_loc + 1) (a₁ int_loc) in set_at a₂ (int_loc + 30) int_loc

-- `for (Int_Index = Int_Loc; Int_Index <= Int_Loc+1; ++Int_Index)`, which runs twice.
unfoldable pub fill_row : ℕ → ℕ → ℕ → (ℕ → ℕ → ℕ) → ℕ → ℕ → ℕ
fill_row zero index int_loc b = b
fill_row (suc left) index int_loc b =
    fill_row left (index + 1) int_loc (set_at_2 b int_loc index int_loc)

-- `Proc_8` on the two global arrays, for indices inside them: `Int_1_Par_Val` from 0 to 14, so that no
-- sum of indices overflows.
unfoldable pub proc_8 : ℕ → ℕ → Globals → Globals
proc_8 int_1 int_2 g =
    let int_loc = int_1 + 5 in
    let a = fill_arr_1 int_loc int_2 g.arr_1_glob in
    let b₁ = fill_row 2 int_loc int_loc g.arr_2_glob in
    let b₂ = set_at_2 b₁ int_loc (sub32 int_loc 1) (u32 (b₁ int_loc (sub32 int_loc 1) + 1)) in
    record g {
      arr_1_glob = a;
      arr_2_glob = set_at_2 b₂ (int_loc + 20) int_loc (a int_loc);
      int_glob = 5;
    }

unfoldable pub func_1 : ℕ → ℕ → Globals → Enumeration × Globals
func_1 ch_1 ch_2 g =
    if not (ch_1 == ch_2) then (ident_1, g) else (ident_2, record g { ch_1_glob = ch_1 })

-- `text[i]` up to the NUL behind a text.
unfoldable pub char_at : ℕ → Str30 → ℕ
char_at i [] = 0
char_at zero (c ∷ cs) = c
char_at (suc i) (c ∷ cs) = char_at i cs

-- `while (Int_Loc <= 2)` of `Func_2`: the last `Int_Loc` and `Ch_Loc`. It does not end for texts with the same
-- characters there; `none` is the end of the fuel.
unfoldable pub scan : ℕ → Str30 → Str30 → ℕ → ℕ → Globals → Option (ℕ × ℕ × Globals)
scan zero str_1 str_2 int_loc ch_loc g = none
scan (suc fuel) str_1 str_2 int_loc ch_loc g =
    let f = func_1 (char_at int_loc str_1) (char_at (int_loc + 1) str_2) g in
    let next_loc = if enum_eq f.0 ident_1 then int_loc + 1 else int_loc in
    let next_ch = if enum_eq f.0 ident_1 then b'A' else ch_loc in
    let rest = scan fuel str_1 str_2 next_loc next_ch f.1 in
    if leb int_loc 2 then rest else some (int_loc, ch_loc, g)

-- `Func_2` behind its loop.
unfoldable pub func_2_end : Str30 → Str30 → ℕ × ℕ × Globals → Bool × Globals
func_2_end str_1 str_2 (int_loc, ch_loc, g) =
    let int_loc₁ = if leb b'W' ch_loc && ltb ch_loc b'Z' then 7 else int_loc in
    if ch_loc == b'R'
    then (true, g)
    else if ltb_ℤ (pos 0) (difference str_1 str_2)
    then (true, record g { int_glob = int_loc₁ + 7 })
    else (false, g)

-- `Ch_Loc` is not set in front of the loop; it starts as `unset`. `strcmp` is the difference of the texts.
unfoldable pub func_2 : ℕ → ℕ → Str30 → Str30 → Globals → Option (Bool × Globals)
func_2 fuel unset str_1 str_2 g = elim (scan fuel str_1 str_2 2 unset g) [
  | none ↦ none
  | some r ↦ some (func_2_end str_1 str_2 r)
]

-- `do ... while (Enum_Loc != Ident_1)` of `Proc_2`: the last value of `*Int_Par_Ref`.
unfoldable pub count_down : ℕ → Enumeration → ℕ → ℕ → Globals → Option ℕ
count_down zero enum_loc int_loc int_par g = none
count_down (suc fuel) enum_loc int_loc int_par g =
    let hit = g.ch_1_glob == b'A' in
    let int_loc₁ = if hit then sub32 int_loc 1 else int_loc in
    let int_par₁ = if hit then sub32 int_loc₁ g.int_glob else int_par in
    let enum_loc₁ = if hit then ident_1 else enum_loc in
    let rest = count_down fuel enum_loc₁ int_loc₁ int_par₁ g in
    if not (enum_eq enum_loc₁ ident_1) then rest else some int_par₁

-- `Enum_Loc` is not set in front of the loop; it starts as `unset`.
unfoldable pub proc_2 : ℕ → Enumeration → ℕ → Globals → Option ℕ
proc_2 fuel unset int_par g = count_down fuel unset (u32 (int_par + 10)) int_par g

abbrev pub from_bool : Bool → ℕ
from_bool b = if b then 1 else 0

unfoldable pub proc_4 : Globals → Globals
proc_4 g = record g {
  bool_glob = bit_or (from_bool (g.ch_1_glob == b'A')) g.bool_glob;
  ch_2_glob = b'B';
}

unfoldable pub proc_5 : Globals → Globals
proc_5 g = record g { ch_1_glob = b'A'; bool_glob = 0 }
