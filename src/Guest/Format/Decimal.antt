-- ===== src/Guest/Format/Decimal.antt =====
-- `%d` of `vprintfmt` of benchmarks/common/syscalls.c.
use arc_tests.Prelude.{
  ℕ, suc, ◌+◌, ◌-◌, ◌<◌, ◌≤◌, ◌^◌, ◌≡◌, refl, ap, ◌∙◌, true, false, some, ltb, leb, if◌then◌else◌,
  List, [], ◌∷◌, ◌++◌, map, length, replicate, arith, u32, sub64, Bool-cases, inl, inr,
}
use mathlib.Core.List.{reverse, reverse-cons, map-append}
use arc_tests.Prelude.Int.{negsuc}
use arc_tests.Guest.Stdio.{sign_extend}
use arc_tests.Guest.Number.{printnum, digit_char}
use arc_tests.Guest.Number.Digits.{read, IsNumeral, printnum_lem}
use arc_tests.Guest.Format.{vprintfmt, escape, switch, convert, kind, print_number, getint}

-- Decimal digits.
abbrev pub AreDigits : List ℕ → Type 0
AreDigits [] = Unit
AreDigits (c ∷ cs) = (b'0' ≤ c) × (c ≤ b'9') × AreDigits cs

AreDigits-append : (xs ys : List ℕ) → AreDigits xs → AreDigits ys → AreDigits (xs ++ ys)
AreDigits-append [] ys hx hy = hy
AreDigits-append (x ∷ xs) ys hx hy = (hx.0, hx.1, AreDigits-append xs ys hx.2 hy)

IsNumeral-AreDigits : (ds : List ℕ) → IsNumeral 10 ds → AreDigits (map digit_char (reverse ds))
IsNumeral-AreDigits [] h = absurd h
IsNumeral-AreDigits (d ∷ []) h = (ground (arith, h), ground (arith, h), tt)
IsNumeral-AreDigits (d ∷ e ∷ ds) h =
    let last : AreDigits (digit_char d ∷ []) = (ground (arith, h.0), ground (arith, h.0), tt) in
    rw (reverse-cons, map-append)
      (AreDigits-append (map digit_char (reverse (e ∷ ds))) (digit_char d ∷ [])
        (IsNumeral-AreDigits (e ∷ ds) h.2) last)

-- `printnum` of a number in base 10 with no width: digits that read back as the number.
pub plain_digits :
    (num : ℕ)
    → num < 2 ^ 64
    → (digits : List ℕ) × (printnum num 10 (negsuc 0) b' ' ≡ some digits)
      × (read 10 digits 0 ≡ num)
      × AreDigits digits
plain_digits num h =
    let (ds, prints, reads, numeral) = printnum_lem num 10 (negsuc 0) b' ' (omega arith) h in
    let no_fill : 0 - length ds ≡ 0 = omega arith in
    (
      map digit_char (reverse ds),
      prints ∙ ap (λ n. some (replicate n b' ' ++ map digit_char (reverse ds))) no_fill,
      reads,
      IsNumeral-AreDigits ds numeral,
    )

module _ (text_at : ℕ → List ℕ) where
  -- With fuel 2 or more, `%d` prints an argument as the `int` that its low 32 bits are: '-' in front of a negative
  -- one, and then decimal digits that read as its absolute value.
  pub vprintfmt_decimal :
      (f arg : ℕ)
      → (digits : List ℕ) × (vprintfmt text_at (suc (suc f)) (b'%' ∷ b'd' ∷ []) (arg ∷ [])
          ≡ some ((if ltb (u32 arg) (2 ^ 31) then digits else b'-' ∷ digits) ++ []))
        × (read 10 digits 0 ≡ (if ltb (u32 arg) (2 ^ 31) then u32 arg else 2 ^ 32 - u32 arg))
        × AreDigits digits
  unfolding vprintfmt escape switch convert kind print_number getint
  vprintfmt_decimal f arg = elim (Bool-cases (ltb (u32 arg) (2 ^ 31))) [
    | inl small ↦
        let (digits, prints, reads, decimal) = plain_digits (u32 arg) (omega arith) in
        let same : sign_extend (u32 arg) ≡ u32 arg = ground arith in
        let positive : leb (2 ^ 63) (u32 arg) ≡ false = ground arith in
        (
          digits,
          rw
              (
                same, positive, prints, small, vprintfmt, escape, switch, convert, kind,
                print_number, getint,
              )
              refl,
          rw small reads,
          decimal,
        )
    | inr large ↦
        let (digits, prints, reads, decimal) = plain_digits (2 ^ 32 - u32 arg) (omega arith) in
        let bits = u32 arg + (2 ^ 64 - 2 ^ 32) in
        let same : sign_extend (u32 arg) ≡ bits = ground arith in
        let negative : leb (2 ^ 63) bits ≡ true = ground arith in
        let absolute : sub64 0 bits ≡ 2 ^ 32 - u32 arg = ground arith in
        (
          digits,
          rw
              (
                same, negative, absolute, prints, large, vprintfmt, escape, switch, convert, kind,
                print_number, getint,
              )
              refl,
          rw large reads,
          decimal,
        )
  ]
