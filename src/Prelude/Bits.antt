-- ===== src/Prelude/Bits.antt =====
-- `&` and `|` at variables: they act on the parts above and below any bit position by themselves.
mod Digits
pub mod Low
pub use Digits.{bit_and_digit, bit_or_digit, bit_xor-parity}
use Prim.Native.Nat.{
  ℕ, zero, suc, ◌+◌, ◌-◌, ◌*◌, ◌/◌, ◌%◌, ◌^◌, ◌<◌, ◌≤◌, min, max, bit_and, bit_or,
}
use Prim.Native.Nat.{bit_and-bitwise, bit_or-bitwise}
use mathlib.Core.Path.{◌≡◌, refl, ap}
use native.Mathlib.Omega.{arith}
use native.Mathlib.Nat.{pow-suc, one-le-pow}

-- A number of `n` bits below others.
abbrev pub above : ℕ → ℕ → ℕ → ℕ
above n hi lo = hi * 2 ^ n + lo

above_half : (n hi lo : ℕ) → above (suc n) hi lo / 2 ≡ above n hi (lo / 2)
above_half n hi lo = omega (arith, ap (λ (t : ℕ). hi * t) (pow-suc 2 n))

above_parity : (n hi lo : ℕ) → above (suc n) hi lo % 2 ≡ lo % 2
above_parity n hi lo = omega (arith, ap (λ (t : ℕ). hi * t) (pow-suc 2 n))

half_fits : (n lo : ℕ) → lo < 2 ^ suc n → lo / 2 < 2 ^ n
half_fits n lo h = omega (arith, pow-suc 2 n)

pub bit_and-above :
    (n a b c d : ℕ)
    → b < 2 ^ n
    → d < 2 ^ n
    → bit_and (above n a b) (above n c d) ≡ above n (bit_and a c) (bit_and b d)
bit_and-above zero a b c d hb hd =
    let eb : b ≡ 0 = omega arith in let ed : d ≡ 0 = omega arith in rw (eb, ed) (ground arith)
bit_and-above (suc n) a b c d hb hd = ground (
  arith,
  bit_and_digit (above (suc n) a b) (above (suc n) c d),
  bit_and_digit b d,
  above_half n a b,
  above_half n c d,
  above_parity n a b,
  above_parity n c d,
  bit_and-above n a (b / 2) c (d / 2) (half_fits n b hb) (half_fits n d hd),
  ap (λ (t : ℕ). bit_and a c * t) (pow-suc 2 n),
)

pub bit_or-above :
    (n a b c d : ℕ)
    → b < 2 ^ n
    → d < 2 ^ n
    → bit_or (above n a b) (above n c d) ≡ above n (bit_or a c) (bit_or b d)
bit_or-above zero a b c d hb hd =
    let eb : b ≡ 0 = omega arith in let ed : d ≡ 0 = omega arith in rw (eb, ed) (ground arith)
bit_or-above (suc n) a b c d hb hd = ground (
  arith,
  bit_or_digit (above (suc n) a b) (above (suc n) c d),
  bit_or_digit b d,
  above_half n a b,
  above_half n c d,
  above_parity n a b,
  above_parity n c d,
  bit_or-above n a (b / 2) c (d / 2) (half_fits n b hb) (half_fits n d hd),
  ap (λ (t : ℕ). bit_or a c * t) (pow-suc 2 n),
)

-- The neutral and the absorbing arguments.
pub bit_or-zero : (n x : ℕ) → x ≤ n → bit_or x 0 ≡ x
bit_or-zero n zero h = refl
bit_or-zero zero (suc x) h = absurd (omega arith)
bit_or-zero (suc n) (suc x) h =
    omega (arith, bit_or_digit (suc x) 0, bit_or-zero n (suc x / 2) (omega arith))

pub bit_and-zero : (n x : ℕ) → x ≤ n → bit_and x 0 ≡ 0
bit_and-zero n zero h = refl
bit_and-zero zero (suc x) h = absurd (omega arith)
bit_and-zero (suc n) (suc x) h =
    omega (arith, bit_and_digit (suc x) 0, bit_and-zero n (suc x / 2) (omega arith))

pub zero-bit_or : (x : ℕ) → bit_or 0 x ≡ x
zero-bit_or x = bit_or-bitwise 0 x

-- A mask of ones keeps a number that it covers.
pub bit_and-ones : (n x : ℕ) → x < 2 ^ n → bit_and x (2 ^ n - 1) ≡ x
bit_and-ones zero x h = let e : x ≡ 0 = omega arith in rw e refl
bit_and-ones (suc n) x h = ground (
  arith,
  pow-suc 2 n,
  one-le-pow n 2,
  bit_and_digit x (2 ^ suc n - 1),
  bit_and-ones n (x / 2) (half_fits n x h),
)

-- `&` does not depend on the order, here for numbers up to a bound.
pub bit_and_comm : (n x y : ℕ) → x ≤ n → y ≤ n → bit_and x y ≡ bit_and y x
bit_and_comm zero x y h k =
    let ex : x ≡ 0 = omega arith in let ey : y ≡ 0 = omega arith in rw (ex, ey) refl
bit_and_comm (suc n) x y h k = omega (
  arith,
  bit_and_digit x y,
  bit_and_digit y x,
  bit_and_comm n (x / 2) (y / 2) (omega arith) (omega arith),
)

pub zero-bit_and : (x : ℕ) → bit_and 0 x ≡ 0
zero-bit_and x = bit_and-bitwise 0 x

pub bit_and-le : (n x y : ℕ) → x ≤ n → bit_and x y ≤ x
bit_and-le zero x y h = let e : x ≡ 0 = omega arith in rw e (omega (arith, zero-bit_and y))
bit_and-le (suc n) zero y h = omega (arith, zero-bit_and y)
bit_and-le (suc n) (suc x) y h =
    omega (arith, bit_and_digit (suc x) y, bit_and-le n (suc x / 2) (y / 2) (omega arith))
