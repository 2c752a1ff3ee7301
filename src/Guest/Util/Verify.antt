-- ===== src/Guest/Util/Verify.antt =====
-- `verify` and `verifyDouble` of benchmarks/common/util.h, unrolled by two, against a plain loop.
use arc_tests.Prelude.{
  ℕ, zero, suc, ◌+◌, ◌-◌, ◌*◌, ◌/◌, ◌≡◌, inl, inr, refl, ◌∙◌, arith, some, Bool, ◌==◌,
  if◌then◌else◌, Bool-cases,
}
use arc_tests.Guest.Util.{verify_pairs, verify, verify_double_pairs, verify_double}

-- One more than the first index from `i` on, among `left`, at which the test fails, and 0 if there is none.
unfoldable pub first_difference : (ℕ → Bool) → ℕ → ℕ → ℕ
first_difference same zero i = 0
first_difference same (suc left) i =
    let rest = first_difference same left (i + 1) in if same i then rest else i + 1

module _ {ℓ} {A : Type ℓ} (eq : A → A → Bool) (n : ℕ) (test expected : ℕ → A) where
  abbrev same : ℕ → Bool
  same i = eq (test i) (expected i)

  -- Where the loop is at `i`, with `k` rounds and `m` elements to go.
  verify_double_pairs_lem :
      (k m i : ℕ)
      → i + m ≡ n
      → i + 2 * k ≡ n / 2 * 2
      → verify_double_pairs eq (suc k) n test expected i ≡ some (first_difference same m i)
  unfolding verify_double_pairs first_difference
  verify_double_pairs_lem zero zero i e h = ground (arith, e, h)
  verify_double_pairs_lem zero (suc zero) i e h =
      let last : n - 1 ≡ i = omega (arith, e) in rw last (ground (arith, e, h))
  verify_double_pairs_lem zero (suc (suc m)) i e h = absurd (omega (arith, e, h))
  verify_double_pairs_lem (suc k) zero i e h = absurd (omega (arith, e, h))
  verify_double_pairs_lem (suc k) (suc zero) i e h = absurd (omega (arith, e, h))
  verify_double_pairs_lem (suc k) (suc (suc m)) i e h =
      let rest = verify_double_pairs_lem k m (i + 2) (omega (arith, e)) (omega (arith, h)) in
      ground (arith, rest, h)

  verify_double_lem : verify_double eq n test expected ≡ some (first_difference same n 0)
  unfolding verify_double
  verify_double_lem = verify_double_pairs_lem (n / 2) n 0 (omega arith) (omega arith)

-- On integers, the two of them give the same.
verify_pairs_same :
    (k n : ℕ) (test expected : ℕ → ℕ) (i : ℕ)
    → verify_pairs k n test expected i ≡ verify_double_pairs ◌==◌ k n test expected i
unfolding verify_pairs verify_double_pairs
verify_pairs_same zero n test expected i = refl
verify_pairs_same (suc k) n test expected i = elim (Bool-cases (test i == expected i)) [
  | inl same ↦ ground (arith, same, verify_pairs_same k n test expected (i + 2))
  | inr differs ↦ ground (arith, differs)
]

-- `verify` and `verifyDouble` return, and give one more than the first index at which the two arrays differ, or 0 where they
-- agree.
pub verify_lem {ℓ} :
    {A : Type ℓ} (eq : A → A → Bool) (n : ℕ) (ints ints' : ℕ → ℕ) (reals reals' : ℕ → A)
    → (verify n ints ints' ≡ some (first_difference (λ i. ints i == ints' i) n 0))
      × (verify_double eq n reals reals'
          ≡ some (first_difference (λ i. eq (reals i) (reals' i)) n 0))
unfolding verify
verify_lem eq n ints ints' reals reals' = (
  verify_pairs_same (suc (n / 2)) n ints ints' 0
      ∙ unfold verify_double in verify_double_lem ◌==◌ n ints ints',
  verify_double_lem eq n reals reals',
)
