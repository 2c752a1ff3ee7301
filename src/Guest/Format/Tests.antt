-- ===== src/Guest/Format/Tests.antt =====
-- Formats, and the theorems at such formats.
use arc_tests.Prelude.{ℕ, ◌^◌, ◌-◌, ◌≡◌, refl, some, List, [], ◌∷◌, ◌++◌, codes}
use arc_tests.Prelude.Int.{◌-ℤ◌}
use arc_tests.Guest.Number.{printnum, collect, pad, pad_to}
use arc_tests.Guest.Format.{
  vprintfmt, escape, switch, convert, kind, print_number, print_string, show_text, getint, getuint,
  process_precision,
}
use arc_tests.Prelude.{if◌then◌else◌, ltb, u32}
use arc_tests.Guest.Number.Digits.{read}
use arc_tests.Guest.Format.Decimal.{AreDigits, vprintfmt_decimal}

abbrev no_text : ℕ → List ℕ
no_text p = codes "abc"

numbers :
    vprintfmt no_text 20 (codes "%5d|%-5s|%03x") (0xffffffd6 ∷ 1 ∷ 10 ∷ [])
    ≡ some (codes "-   42|abc  |00a")
unfolding vprintfmt escape switch convert kind print_number print_string show_text getint getuint
    process_precision printnum collect pad pad_to ◌-ℤ◌
numbers = refl

vprintfmt_decimal_example :
    (digits : List ℕ) × (vprintfmt no_text 2 (b'%' ∷ b'd' ∷ []) (0xffffffd6 ∷ [])
      ≡ some ((if ltb (u32 0xffffffd6) (2 ^ 31) then digits else b'-' ∷ digits) ++ []))
    × (read 10 digits 0
        ≡ (if ltb (u32 0xffffffd6) (2 ^ 31) then u32 0xffffffd6 else 2 ^ 32 - u32 0xffffffd6))
    × AreDigits digits
vprintfmt_decimal_example = vprintfmt_decimal no_text 0 0xffffffd6
