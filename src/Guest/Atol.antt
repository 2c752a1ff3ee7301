-- ===== src/Guest/Atol.antt =====
-- `atol` of benchmarks/common/syscalls.c. A `long` is given by its 64 bits.
use arc_tests.Prelude.{
  ℕ, zero, suc, ◌+◌, ◌-◌, ◌*◌, ◌^◌, ◌<◌, ◌≤◌, ◌≡◌, ◌⊎◌, ◌∙◌, arith, Option, none, some, ◌==◌, ◌||◌,
  ltb, if◌then◌else◌, List, [], ◌∷◌, length, u32, u64, sub64, Bool-cases, inl, inr,
}
use mathlib.Core.Option
use mathlib.Core.List.{append-nil}
use arc_tests.Guest.Memory.{Mem}
use arc_tests.Guest.Cstring.{Holds}
use arc_tests.Guest.Stdio.{sign_extend}
use arc_tests.Guest.Number.Digits.{read, char_digit}
use arc_tests.Guest.Format.Decimal.{AreDigits, vprintfmt_decimal}
use arc_tests.Guest.Format.{vprintfmt}
use arc_tests.Guest.Print.{IsText, sprintf, sprintf_lem}

-- `while (*str == ' ') str++;`
unfoldable pub skip_spaces : ℕ → Mem → ℕ → Option ℕ
skip_spaces zero mem str = none
skip_spaces (suc fuel) mem str =
    let rest = skip_spaces fuel mem (str + 1) in if mem str == b' ' then rest else some str

-- `while (*str)`, with `res` so far. Where the multiplication leaves a `long`, the code is undefined; this wraps.
unfoldable pub read_digits : ℕ → Mem → ℕ → ℕ → Option ℕ
read_digits zero mem str res = none
read_digits (suc fuel) mem str res =
    let rest = read_digits fuel mem (str + 1) (u64 (res * 10 + sub64 (mem str) b'0')) in
    if mem str == 0 then some res else rest

unfoldable pub atol : ℕ → Mem → ℕ → Option ℕ
atol fuel mem str = elim (skip_spaces fuel mem str) [
  | none ↦ none
  | some p ↦
      let digits = if mem p == b'-' || mem p == b'+' then p + 1 else p in
      Option.map (λ res. if mem p == b'-' then sub64 0 res else res) (read_digits fuel mem digits 0)
]

read-le : (digits : List ℕ) (acc : ℕ) → acc ≤ read 10 digits acc
unfolding read
read-le [] acc = omega arith
read-le (c ∷ cs) acc =
    ground (arith, read-le cs (acc * 10 + (c - 48)), read-le cs (acc * 10 + (c - 87)))

read_digits_lem :
    (digits : List ℕ) (fuel : ℕ) (mem : Mem) (str res : ℕ)
    → AreDigits digits
    → Holds mem str digits
    → length digits < fuel
    → read 10 digits res < 2 ^ 64
    → read_digits fuel mem str res ≡ some (read 10 digits res)
unfolding read_digits read
read_digits_lem digits zero mem str res h holds lt fits = absurd (omega arith)
read_digits_lem [] (suc fuel) mem str res h holds lt fits = ground (arith, holds)
read_digits_lem (c ∷ cs) (suc fuel) mem str res h holds lt fits =
    let more : read 10 cs (res * 10 + char_digit c) < 2 ^ 64 = fits in
    let below = read-le cs (res * 10 + char_digit c) in
    let digit : char_digit c ≡ c - 48 = ground (arith, h.1) in
    let exact : u64 (res * 10 + sub64 (mem str) b'0') ≡ res * 10 + char_digit c =
      omega (arith, holds.0, h.0, h.1, digit, below, more) in
    let rest =
      read_digits_lem cs fuel mem (str + 1) (res * 10 + char_digit c) h.2 holds.2
        (omega (arith, lt)) more in
    ground (arith, holds.0, holds.1, exact, rest)

AreDigits-IsText : (digits : List ℕ) → AreDigits digits → IsText digits
AreDigits-IsText [] h = tt
AreDigits-IsText (c ∷ cs) h = (omega (arith, h.0), omega (arith, h.1), AreDigits-IsText cs h.2)

-- What stands at the start of digits is no space and no sign.
first_digit :
    (digits : List ℕ) (mem : Mem) (str : ℕ)
    → AreDigits digits
    → Holds mem str digits
    → (mem str ≡ 0) ⊎ (b'0' ≤ mem str)
first_digit [] mem str h holds = inl holds
first_digit (c ∷ cs) mem str h holds = inr (omega (arith, h.0, holds.0))

-- `atol` of digits, and of '-' in front of digits.
atol_digits :
    (digits : List ℕ) (fuel : ℕ) (mem : Mem) (str : ℕ)
    → AreDigits digits
    → Holds mem str digits
    → length digits < fuel
    → read 10 digits 0 < 2 ^ 64
    → atol fuel mem str ≡ some (read 10 digits 0)
unfolding atol skip_spaces
atol_digits digits zero mem str h holds lt fits = absurd (omega arith)
atol_digits digits (suc fuel) mem str h holds lt fits =
    let runs = read_digits_lem digits (suc fuel) mem str 0 h holds lt fits in
    elim (first_digit digits mem str h holds) [
      | inl nul ↦ ground (arith, nul, runs)
      | inr digit ↦ ground (arith, digit, runs)
    ]

atol_minus :
    (digits : List ℕ) (fuel : ℕ) (mem : Mem) (str : ℕ)
    → AreDigits digits
    → Holds mem str (b'-' ∷ digits)
    → length digits < fuel
    → read 10 digits 0 < 2 ^ 64
    → atol fuel mem str ≡ some (sub64 0 (read 10 digits 0))
unfolding atol skip_spaces
atol_minus digits zero mem str h holds lt fits = absurd (omega arith)
atol_minus digits (suc fuel) mem str h holds lt fits =
    let runs = read_digits_lem digits (suc fuel) mem (str + 1) 0 h holds.2 lt fits in
    ground (arith, holds.0, runs)

-- An `int` that `sprintf` writes by `%d` is read back by `atol` from the same pointer, as the `long` of that value, with
-- fuel for all characters written.
pub atol-sprintf :
    (text_at : ℕ → List ℕ) (f fuel : ℕ) (mem : Mem) (str num : ℕ)
    → num < 2 ^ 32
    → (mem' : Mem) × (n : ℕ) × (sprintf text_at (suc (suc f)) mem str (b'%' ∷ b'd' ∷ []) (num ∷ [])
        ≡ some (mem', n))
      × (atol (n + suc fuel) mem' str ≡ some (sign_extend num))
atol-sprintf text_at f fuel mem str num small =
    let (digits, prints, reads, decimal) = vprintfmt_decimal text_at f num in
    let whole : u32 num ≡ num = omega (arith, small) in
    elim (Bool-cases (ltb num (2 ^ 31))) [
      | inl positive ↦
          let shown : vprintfmt text_at (suc (suc f)) (b'%' ∷ b'd' ∷ []) (num ∷ []) ≡ some digits =
            ground (arith, prints, whole, positive, append-nil digits) in
          let (mem', writes, holds, _) =
            sprintf_lem text_at (suc (suc f)) mem str (b'%' ∷ b'd' ∷ []) (num ∷ []) digits shown
              (AreDigits-IsText digits decimal) in
          let value : read 10 digits 0 ≡ num = ground (arith, reads, whole, positive) in
          (
            mem',
            length digits,
            writes,
            atol_digits digits (length digits + suc fuel) mem' str decimal holds (omega arith)
                  (omega (arith, value, small))
                ∙ ground (arith, value, positive),
          )
      | inr negative ↦
          let shown : vprintfmt text_at (suc (suc f)) (b'%' ∷ b'd' ∷ []) (num ∷ [])
              ≡ some (b'-' ∷ digits) =
            ground (arith, prints, whole, negative, append-nil (b'-' ∷ digits)) in
          let (mem', writes, holds, _) =
            sprintf_lem text_at (suc (suc f)) mem str (b'%' ∷ b'd' ∷ []) (num ∷ []) (b'-' ∷ digits)
              shown (omega arith, omega arith, AreDigits-IsText digits decimal) in
          let value : read 10 digits 0 ≡ 2 ^ 32 - num = ground (arith, reads, whole, negative) in
          (
            mem',
            suc (length digits),
            writes,
            atol_minus digits (suc (length digits) + suc fuel) mem' str decimal holds (omega arith)
                  (omega (arith, value))
                ∙ ground (arith, value, negative),
          )
    ]
