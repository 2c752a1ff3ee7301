-- ===== src/Guest/Number.antt =====
-- `printnum` and `printhex` of benchmarks/common/syscalls.c, as the lists of the characters that they print.
pub mod Digits
use arc_tests.Prelude.{
  ℕ, zero, suc, ◌+◌, ◌-◌, ◌*◌, ◌/◌, ◌%◌, Option, none, some, ltb, leb, if◌then◌else◌, List, [], ◌∷◌,
  ◌++◌, map, length, bit_and, ◌>>>◌,
}
use mathlib.Core.Option
use mathlib.Core.List.{reverse}
use arc_tests.Prelude.Int.{ℤ, pos, negsuc}

-- `digs[pos++] = num % base; if (num < base) break; num /= base;`, lowest digit first. The array has
-- 64 places: `none` is a write past its end.
unfoldable pub collect : ℕ → ℕ → ℕ → Option (List ℕ)
collect zero num base = none
collect (suc room) num base =
    let rest = Option.map (λ ds. num % base ∷ ds) (collect room (num / base) base) in
    if ltb num base then some (num % base ∷ []) else rest

-- `while (width-- > pos) putch(padc)`.
unfoldable pub pad_to : ℕ → ℕ → ℕ → List ℕ
pad_to zero digits padc = []
pad_to (suc w) digits padc = if ltb digits (suc w) then padc ∷ pad_to w digits padc else []

unfoldable pub pad : ℤ → ℕ → ℕ → List ℕ
pad (pos w) digits padc = pad_to w digits padc
pad (negsuc w) digits padc = []

-- `digs[pos] + (digs[pos] >= 10 ? 'a' - 10 : '0')`.
abbrev pub digit_char : ℕ → ℕ
digit_char d = if leb 10 d then d + 87 else d + 48

unfoldable pub printnum : ℕ → ℕ → ℤ → ℕ → Option (List ℕ)
printnum num base width padc =
    Option.map (λ ds. pad width (length ds) padc ++ map digit_char (reverse ds))
      (collect 64 num base)

-- The loop of `printhex`, which fills `str` from its end.
unfoldable pub hex_digits : ℕ → ℕ → List ℕ → List ℕ
hex_digits zero x str = str
hex_digits (suc left) x str =
    let d = bit_and x 0xF in hex_digits left (x >>> 4) ((if ltb d 10 then d + 48 else d + 87) ∷ str)

-- The characters that `printhex` hands to `printstr`.
unfoldable pub printhex : ℕ → List ℕ
printhex x = hex_digits 16 x []
