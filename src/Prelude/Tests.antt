-- ===== src/Prelude/Tests.antt =====
-- Boolean tests on the native numbers, and the conditional.
use Prim.Native.Nat.{ℕ, zero, suc, ◌≤◌, ◌<◌, compare, Ordering}
use mathlib.Core.Path.{◌≡◌, refl}
use mathlib.Core.Logic.{◌⊎◌, inl, inr}
use mathlib.Core.Bool.{Bool, true, false}
use mathlib.Core.Option.{Option, none, some}
use native.Mathlib.Omega.{arith}

-- These compute to `compare`, which `ground` and `grind` read with no lemma listed.
abbrev pub ltb : ℕ → ℕ → Bool
ltb a b = elim (compare a b) [ Ordering.lt ↦ true | _ ↦ false ]

abbrev pub leb : ℕ → ℕ → Bool
leb a b = elim (compare a b) [ Ordering.gt ↦ false | _ ↦ true ]

infix 50 ◌==◌
abbrev pub ◌==◌ : ℕ → ℕ → Bool
a == b = elim (compare a b) [ Ordering.eq ↦ true | _ ↦ false ]

infix 1 if◌then◌else◌
abbrev pub if◌then◌else◌ {ℓ} : {A : Type ℓ} → Bool → A → A → A
if true then x else y = x
if false then x else y = y

-- `omega` reads a test through such lemmas.
pub ltb→lt : (a b : ℕ) → ltb a b ≡ true → a < b
ltb→lt a b h = ground arith

pub lt→ltb : (a b : ℕ) → a < b → ltb a b ≡ true
lt→ltb a b h = ground arith

pub leb→le : (a b : ℕ) → leb a b ≡ true → a ≤ b
leb→le a b h = ground arith

pub ruleset tests = (arith, ltb→lt, lt→ltb, leb→le)

-- To split on a computed value and keep the equation.
pub Bool-cases : (b : Bool) → (b ≡ true) ⊎ (b ≡ false)
Bool-cases true = inl refl
Bool-cases false = inr refl

pub Option-cases {ℓ} : {A : Type ℓ} (o : Option A) → (o ≡ none) ⊎ ((a : A) × (o ≡ some a))
Option-cases none = inl refl
Option-cases (some a) = inr (a, refl)

-- A family at each of the numbers below 8, and that this is all of them.
abbrev pub Eight {ℓ} : (ℕ → Type ℓ) → Type ℓ
Eight P = P 0 × P 1 × P 2 × P 3 × P 4 × P 5 × P 6 × P 7

pub below_eight {ℓ} : (P : ℕ → Type ℓ) (j : ℕ) → j < 8 → Eight P → P j
below_eight P zero h all = all.0
below_eight P (suc zero) h all = all.1
below_eight P (suc (suc zero)) h all = all.2
below_eight P (suc (suc (suc zero))) h all = all.3
below_eight P (suc (suc (suc (suc zero)))) h all = all.4
below_eight P (suc (suc (suc (suc (suc zero))))) h all = all.5
below_eight P (suc (suc (suc (suc (suc (suc zero)))))) h all = all.6
below_eight P (suc (suc (suc (suc (suc (suc (suc zero))))))) h all = all.7
below_eight P (suc (suc (suc (suc (suc (suc (suc (suc j)))))))) h all = absurd (omega arith)
