-- ===== src/Guest/Number/Digits.antt =====
-- The digits that `printnum` and `printhex` of benchmarks/common/syscalls.c print, read as numbers.
use arc_tests.Prelude.{
  ℕ, zero, suc, ◌+◌, ◌-◌, ◌*◌, ◌/◌, ◌%◌, ◌^◌, ◌<◌, ◌≤◌, ◌≡◌, refl, ap, ◌∙◌, inl, inr, arith, some,
  ltb, leb, if◌then◌else◌, List, [], ◌∷◌, ◌++◌, map, length, replicate, Bool-cases, bit_and,
}
use mathlib.Core.List.{reverse, reverse-cons, map-append}
use native.Mathlib.Nat.{zero-sub, pow-suc, mod-add-div', mod-lt, mod-eq_of_lt}
use arc_tests.Prelude.Bits.Low.{bit_and-fifteen}
use arc_tests.Prelude.Int.{ℤ, pos, negsuc, pos_part}
use arc_tests.Guest.Number.{collect, pad_to, pad, digit_char, printnum, hex_digits, printhex}

-- The number that digits stand for, lowest digit first.
unfoldable pub value : ℕ → List ℕ → ℕ
value base [] = 0
value base (d ∷ ds) = d + value base ds * base

-- Digits below the base, with no zero in front: the last of them, the highest, is not 0 unless it is alone.
abbrev pub IsNumeral : ℕ → List ℕ → Type 0
IsNumeral base [] = ⊥
IsNumeral base (d ∷ []) = d < base
IsNumeral base (d ∷ e ∷ ds) = (d < base) × (0 < value base (e ∷ ds)) × IsNumeral base (e ∷ ds)

IsNumeral-cons :
    (base d : ℕ) (ds : List ℕ)
    → d < base
    → 0 < value base ds
    → IsNumeral base ds
    → IsNumeral base (d ∷ ds)
IsNumeral-cons base d [] lt some_left h = lt
IsNumeral-cons base d (e ∷ ds) lt some_left h = (lt, some_left, h)

-- Dividing by the base leaves a number of fewer bits, and one above 0 if there is more than one digit.
quotient_facts :
    (num base bound : ℕ)
    → 2 ≤ base
    → num < bound * 2
    → base ≤ num
    → (num / base < bound) × (0 < num / base) × (num % base + num / base * base ≡ num)
quotient_facts num base bound two fits le =
    let split : num % base + num / base * base ≡ num = mod-add-div' num base in
    (grind arith, grind arith, split)

room_left : (room num : ℕ) → 2 ≤ num → num < 2 ^ suc room → 0 < room
room_left zero num two fits = absurd (omega arith)
room_left (suc room) num two fits = omega arith

collect-IsNumeral :
    (room num base : ℕ)
    → 2 ≤ base
    → num < 2 ^ room
    → 0 < room
    → (ds : List ℕ) × (collect room num base ≡ some ds) × (value base ds ≡ num) × IsNumeral base ds
unfolding collect value
collect-IsNumeral zero num base two fits pos_room = absurd (omega arith)
collect-IsNumeral (suc room) num base two fits pos_room = elim (Bool-cases (ltb num base)) [
  | inl ends ↦
      let same : num % base ≡ num = mod-eq_of_lt (ground arith) in
      (num % base ∷ [], rw ends refl, omega (arith, same), mod-lt num (omega arith))
  | inr more ↦
      let (less, above, split) =
        quotient_facts num base (2 ^ room) two (omega (arith, pow-suc 2 room)) (ground arith) in
      let (ds, runs, val, numeral) =
        collect-IsNumeral room (num / base) base two less
          (room_left room num (ground arith) fits) in
      (
        num % base ∷ ds,
        ground (arith, runs),
        rw val split,
        IsNumeral-cons base (num % base) ds (mod-lt num (omega arith)) (rw val above) numeral,
      )
]

-- The digit that a character stands for.
abbrev pub char_digit : ℕ → ℕ
char_digit c = if leb b'a' c then c - 87 else c - 48

-- A text read as a number, from the left.
unfoldable pub read : ℕ → List ℕ → ℕ → ℕ
read base [] acc = acc
read base (c ∷ cs) acc = read base cs (acc * base + char_digit c)

read-append :
    (base : ℕ) (xs ys : List ℕ) (acc : ℕ)
    → read base (xs ++ ys) acc ≡ read base ys (read base xs acc)
unfolding read
read-append base [] ys acc = refl
read-append base (x ∷ xs) ys acc = read-append base xs ys (acc * base + char_digit x)

read-digits : (base : ℕ) (ds : List ℕ) → read base (map digit_char (reverse ds)) 0 ≡ value base ds
unfolding value
read-digits base [] = unfold read in refl
read-digits base (d ∷ ds) =
    rw (reverse-cons, map-append, read-append, read-digits base ds) (unfold read in ground arith)

pad-replicate : (w digits padc : ℕ) → pad_to w digits padc ≡ replicate (w - digits) padc
unfolding pad_to
pad-replicate zero digits padc = let e : 0 - digits ≡ 0 = omega arith in rw e refl
pad-replicate (suc w) digits padc = elim (Bool-cases (ltb digits (suc w))) [
  | inl more ↦
      let e : suc w - digits ≡ suc (w - digits) = ground arith in
      rw (more, e, pad-replicate w digits padc) refl
  | inr ends ↦ let e : suc w - digits ≡ 0 = ground arith in rw (ends, e) refl
]

-- `printnum` of a 64-bit number, in a base from 2 on, never leaves its array of digits; it prints fill characters up to the
-- width, and then the numeral: digits below the base that read back as the number, with no zero in front
-- (but for the number 0).
pub printnum_lem :
    (num base : ℕ) (width : ℤ) (padc : ℕ)
    → 2 ≤ base
    → num < 2 ^ 64
    → (ds : List ℕ) × (printnum num base width padc
        ≡ some (replicate (pos_part width - length ds) padc ++ map digit_char (reverse ds)))
      × (read base (map digit_char (reverse ds)) 0 ≡ num)
      × IsNumeral base ds
unfolding printnum
printnum_lem num base width padc two fits =
    let (ds, runs, val, numeral) = collect-IsNumeral 64 num base two fits (omega arith) in
    (
      ds,
      rw runs (ap (λ fill. some (fill ++ map digit_char (reverse ds))) (padding width (length ds))),
      read-digits base ds ∙ val,
      numeral,
    )
  where
    padding : (w : ℤ) (digits : ℕ) → pad w digits padc ≡ replicate (pos_part w - digits) padc
    padding (pos w) digits = unfold pad in pad-replicate w digits padc
    padding (negsuc w) digits = unfold pad in rw zero-sub refl

-- The characters of `hex_digits` read, in base 16, as the low digits of the number in front of what was there.
hex_digits-read :
    (left x acc : ℕ) (str : List ℕ)
    → x < 16 ^ left
    → read 16 (hex_digits left x str) acc ≡ read 16 str (acc * 16 ^ left + x)
unfolding hex_digits
hex_digits-read zero x acc str fits = let e : acc * 16 ^ 0 + x ≡ acc = omega arith in rw e refl
hex_digits-read (suc left) x acc str fits =
    let d = bit_and x 0xF in
    let c = if ltb d 10 then d + 48 else d + 87 in
    let low : char_digit c ≡ x % 16 = ground (arith, bit_and-fifteen x) in
    let sum : (acc * 16 ^ left + x / 16) * 16 + x % 16 ≡ acc * 16 ^ suc left + x =
      omega (arith, ap (λ (t : ℕ). acc * t) (pow-suc 16 left)) in
    hex_digits-read left (x / 16) acc (c ∷ str) (omega (arith, pow-suc 16 left))
    ∙ unfold read in rw (low, sum) refl

hex_digits-length : (left x : ℕ) (str : List ℕ) → length (hex_digits left x str) ≡ left + length str
unfolding hex_digits
hex_digits-length zero x str = omega arith
hex_digits-length (suc left) x str =
    let d = bit_and x 0xF in
    omega (arith, hex_digits-length left (x / 16) ((if ltb d 10 then d + 48 else d + 87) ∷ str))

-- `printhex` prints 16 characters, which read in base 16 as the number.
printhex_lem : (x : ℕ) → x < 2 ^ 64 → (length (printhex x) ≡ 16) × (read 16 (printhex x) 0 ≡ x)
unfolding printhex
printhex_lem x fits = (
  hex_digits-length 16 x [],
  hex_digits-read 16 x 0 [] (omega arith) ∙ unfold read in omega arith,
)
