-- ===== src/Prelude/Bits/Digits.antt =====
-- One binary digit of `&`, `|` and `^` at a time.
use Prim.Native.Nat.{ℕ, zero, suc, ◌+◌, ◌*◌, ◌/◌, ◌%◌, ◌≤◌, ◌<◌, min, max, differ, digits, bitwise}
use Prim.Native.Nat.{bit_and, bit_or, bit_xor, bit_and-bitwise, bit_or-bitwise, bit_xor-bitwise}
use mathlib.Core.Path.{◌≡◌, refl, ap}
use native.Mathlib.Omega.{arith}

module _ (rest : ℕ → ℕ) (digit : ℕ → ℕ → ℕ) where
  -- More rounds than the number has digits change nothing.
  rounds : (k l x y : ℕ) → x ≤ k → x ≤ l → digits rest digit k x y ≡ digits rest digit l x y
  rounds zero zero x y p q = refl
  rounds zero (suc l) zero y p q = refl
  rounds (suc k) zero zero y p q = refl
  rounds (suc k) (suc l) zero y p q = refl
  rounds zero l (suc x) y p q = absurd (omega arith)
  rounds (suc k) zero (suc x) y p q = absurd (omega arith)
  rounds (suc k) (suc l) (suc x) y p q =
      ap (λ t. t * 2 + digit (suc x % 2) (y % 2))
        (rounds k l (suc x / 2) (y / 2) (omega arith) (omega arith))

  -- The lowest digit, if the rule also fits where the first number has run out.
  lowest :
      ((y : ℕ) → rest y ≡ rest (y / 2) * 2 + digit 0 (y % 2))
      → (x y : ℕ)
      → bitwise rest digit x y ≡ bitwise rest digit (x / 2) (y / 2) * 2 + digit (x % 2) (y % 2)
  lowest fits zero y = fits y
  lowest fits (suc x) y =
      ap (λ t. t * 2 + digit (suc x % 2) (y % 2))
        (rounds x (suc x / 2) (suc x / 2) (y / 2) (omega arith) (omega arith))

pub bit_and_digit : (x y : ℕ) → bit_and x y ≡ bit_and (x / 2) (y / 2) * 2 + min (x % 2) (y % 2)
bit_and_digit x y = omega (
  arith,
  bit_and-bitwise x y,
  bit_and-bitwise (x / 2) (y / 2),
  lowest (λ _. 0) min (λ y. omega arith) x y,
)

pub bit_or_digit : (x y : ℕ) → bit_or x y ≡ bit_or (x / 2) (y / 2) * 2 + max (x % 2) (y % 2)
bit_or_digit x y = omega (
  arith,
  bit_or-bitwise x y,
  bit_or-bitwise (x / 2) (y / 2),
  lowest (λ y. y) max (λ y. omega arith) x y,
)

differ_digits : (a b : ℕ) → a < 2 → b < 2 → differ a b ≡ (a + b) % 2
differ_digits zero b p q = omega (arith, q)
differ_digits (suc zero) zero p q = refl
differ_digits (suc zero) (suc zero) p q = refl
differ_digits (suc zero) (suc (suc b)) p q = absurd (omega (arith, q))
differ_digits (suc (suc a)) b p q = absurd (omega (arith, p))

-- The lowest digit of `^`.
pub bit_xor-parity : (x y : ℕ) → bit_xor x y % 2 ≡ (x + y) % 2
bit_xor-parity x y = omega (
  arith,
  bit_xor-bitwise x y,
  lowest (λ y. y) differ (λ y. omega arith) x y,
  differ_digits (x % 2) (y % 2) (omega arith) (omega arith),
)
