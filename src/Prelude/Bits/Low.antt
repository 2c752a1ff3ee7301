-- ===== src/Prelude/Bits/Low.antt =====
-- Bounds of `|`, and the low bits that a mask keeps.
use Prim.Native.Nat.{ℕ, zero, suc, ◌/◌, ◌%◌, ◌^◌, ◌<◌, ◌≤◌, bit_and, bit_or}
use mathlib.Core.Path.{◌≡◌, ap, ap₂, ◌∙◌}
use native.Mathlib.Omega.{arith}
use native.Mathlib.Nat.{pow-suc}
use arc_tests.Prelude.Bits.{
  above, bit_or_digit, bit_and-above, bit_or-above, bit_and-zero, bit_and-ones, zero-bit_or,
}

pub le-bit_or_right : (n a b : ℕ) → a ≤ n → b ≤ bit_or a b
le-bit_or_right n zero b h = omega (arith, zero-bit_or b)
le-bit_or_right zero (suc a) b h = absurd (omega arith)
le-bit_or_right (suc n) (suc a) b h =
    omega (arith, bit_or_digit (suc a) b, le-bit_or_right n (suc a / 2) (b / 2) (omega arith))

pub le-bit_or_left : (n a b : ℕ) → a ≤ n → a ≤ bit_or a b
le-bit_or_left n zero b h = omega arith
le-bit_or_left zero (suc a) b h = absurd (omega arith)
le-bit_or_left (suc n) (suc a) b h =
    omega (arith, bit_or_digit (suc a) b, le-bit_or_left n (suc a / 2) (b / 2) (omega arith))

pub bit_or-lt : (n a b : ℕ) → a < 2 ^ n → b < 2 ^ n → bit_or a b < 2 ^ n
bit_or-lt zero a b ha hb =
    let ea : a ≡ 0 = omega arith in let eb : b ≡ 0 = omega arith in rw (ea, eb) (omega arith)
bit_or-lt (suc n) a b ha hb = omega (
  arith,
  pow-suc 2 n,
  bit_or_digit a b,
  bit_or-lt n (a / 2) (b / 2) (omega (arith, pow-suc 2 n)) (omega (arith, pow-suc 2 n)),
)

-- `x & 7` and `(x | y) & 7`.
pub bit_and-seven : (x : ℕ) → bit_and x 7 ≡ x % 8
bit_and-seven x =
    let parts : x ≡ above 3 (x / 8) (x % 8) = omega arith in
    let low : bit_and x 7 ≡ above 3 0 (x % 8) =
      ap (λ t. bit_and t 7) parts
      ∙ bit_and-above 3 (x / 8) (x % 8) 0 7 (omega arith) (omega arith)
      ∙ ap₂ (above 3) (bit_and-zero (x / 8) (x / 8) (omega arith))
          (bit_and-ones 3 (x % 8) (omega arith)) in
    omega (arith, low)

bit_or-mod_eight : (x y : ℕ) → bit_or x y % 8 ≡ bit_or (x % 8) (y % 8)
bit_or-mod_eight x y =
    let ex : x ≡ above 3 (x / 8) (x % 8) = omega arith in
    let ey : y ≡ above 3 (y / 8) (y % 8) = omega arith in
    let split : bit_or x y ≡ above 3 (bit_or (x / 8) (y / 8)) (bit_or (x % 8) (y % 8)) =
      ap₂ bit_or ex ey
      ∙ bit_or-above 3 (x / 8) (x % 8) (y / 8) (y % 8) (omega arith) (omega arith) in
    omega (arith, split, bit_or-lt 3 (x % 8) (y % 8) (omega arith) (omega arith))

-- A joint alignment test tests both numbers.
pub aligned_both : (x y : ℕ) → bit_or x y % 8 ≡ 0 → (x % 8 ≡ 0) × (y % 8 ≡ 0)
aligned_both x y h = omega (
  arith,
  bit_or-mod_eight x y,
  le-bit_or_left (x % 8) (x % 8) (y % 8) (omega arith),
  le-bit_or_right (x % 8) (x % 8) (y % 8) (omega arith),
)

pub bit_and-fifteen : (x : ℕ) → bit_and x 15 ≡ x % 16
bit_and-fifteen x =
    let parts : x ≡ above 4 (x / 16) (x % 16) = omega arith in
    let low : bit_and x 15 ≡ above 4 0 (x % 16) =
      ap (λ t. bit_and t 15) parts
      ∙ bit_and-above 4 (x / 16) (x % 16) 0 15 (omega arith) (omega arith)
      ∙ ap₂ (above 4) (bit_and-zero (x / 16) (x / 16) (omega arith))
          (bit_and-ones 4 (x % 16) (omega arith)) in
    omega (arith, low)
