-- ===== src/Guest/Format/Long.antt =====
-- `%ld` of `vprintfmt` of benchmarks/common/syscalls.c, at the end of a line that begins with a text.
use arc_tests.Prelude.{
  ℕ, suc, ◌<◌, ◌^◌, ◌≡◌, refl, ap, ◌∙◌, false, some, leb, List, [], ◌∷◌, ◌++◌, length, arith, u64,
  codes,
}
use mathlib.Core.Option
use arc_tests.Guest.Number.Digits.{read}
use arc_tests.Guest.Format.{vprintfmt, escape, switch, convert, kind, print_number, getint}
use arc_tests.Guest.Format.Decimal.{AreDigits, plain_digits}
use arc_tests.Guest.Format.Laws.{IsPlain, vprintfmt-append}

module _ (text_at : ℕ → List ℕ) where
  vprintfmt_long :
      (f arg : ℕ)
      → arg < 2 ^ 63
      → (digits : List ℕ) × (vprintfmt text_at (suc (suc (suc f))) (codes "%ld\n") (arg ∷ [])
          ≡ some (digits ++ b'\n' ∷ []))
        × (read 10 digits 0 ≡ arg)
        × AreDigits digits
  unfolding vprintfmt escape switch convert kind print_number getint
  vprintfmt_long f arg small =
      let (digits, prints, reads, decimal) = plain_digits arg (omega (arith, small)) in
      let same : u64 arg ≡ arg = omega (arith, small) in
      let positive : leb (2 ^ 63) arg ≡ false = ground (arith, small) in
      (
        digits,
        rw (same, positive, prints, vprintfmt, escape, switch, convert, kind, print_number, getint)
            refl,
        reads,
        decimal,
      )

  -- A label, the digits of the number, and the end of the line.
  pub vprintfmt_labelled :
      (label : List ℕ) (fuel arg : ℕ)
      → IsPlain label
      → length (label ++ codes "%ld\n") < fuel
      → arg < 2 ^ 63
      → (digits : List ℕ) × (vprintfmt text_at fuel (label ++ codes "%ld\n") (arg ∷ [])
          ≡ some (label ++ (digits ++ b'\n' ∷ [])))
        × (read 10 digits 0 ≡ arg)
        × AreDigits digits
  vprintfmt_labelled label fuel arg plain enough small =
      let (digits, prints, reads, decimal) = vprintfmt_long 2 arg small in
      (
        digits,
        vprintfmt-append text_at label (codes "%ld\n") (arg ∷ []) 5 fuel plain enough (omega arith)
            ∙ ap (λ o. Option.map (λ out. label ++ out) o) prints,
        reads,
        decimal,
      )
