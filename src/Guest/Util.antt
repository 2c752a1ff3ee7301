-- ===== src/Guest/Util.antt =====
-- benchmarks/common/util.h: the comparison of results with what is expected (`verify`, and `verifyDouble`, whose text
-- `verifyFloat` repeats), `lfsr` and `insn_len`. The number of elements is not negative.
pub mod Verify
pub mod Lfsr
pub mod Tests
use arc_tests.Prelude.{
  ℕ, zero, suc, ◌+◌, ◌-◌, ◌*◌, ◌/◌, ◌%◌, ◌^◌, Option, none, some, Bool, true, false, not, ◌&&◌, ltb,
  ◌==◌, if◌then◌else◌, bit_and, bit_or, bit_xor, u64, ◌<<<◌, ◌>>>◌,
}
use arc_tests.Guest.Memory.{Mem}

-- The loop over pairs of elements, with the rounds that are left. Behind it stands the test of the last of an odd
-- number of elements.
unfoldable pub verify_pairs : ℕ → ℕ → (ℕ → ℕ) → (ℕ → ℕ) → ℕ → Option ℕ
verify_pairs zero n test expected i = none
verify_pairs (suc left) n test expected i =
    let rest = verify_pairs left n test expected (i + 2) in
    if ltb i (n / 2 * 2)
    then (if not (test i == expected i)
        then some (i + 1)
        else if not (test (i + 1) == expected (i + 1))
        then some (i + 2)
        else rest)
    else if not (n % 2 == 0) && not (test (n - 1) == expected (n - 1))
    then some n
    else some 0

unfoldable pub verify : ℕ → (ℕ → ℕ) → (ℕ → ℕ) → Option ℕ
verify n test expected = verify_pairs (suc (n / 2)) n test expected 0

abbrev pub from_bool : Bool → ℕ
from_bool false = 0
from_bool true = 1

-- Numbers in floating point are of a type `A`, with the test of their equality.
module _ {ℓ} {A : Type ℓ} (eq : A → A → Bool) where
  unfoldable pub verify_double_pairs : ℕ → ℕ → (ℕ → A) → (ℕ → A) → ℕ → Option ℕ
  verify_double_pairs zero n test expected i = none
  verify_double_pairs (suc left) n test expected i =
      let rest = verify_double_pairs left n test expected (i + 2) in
      let eq1 = eq (test i) (expected i) in
      let eq2 = eq (test (i + 1)) (expected (i + 1)) in
      if ltb i (n / 2 * 2)
      then (if not (eq1 && eq2) then some (i + 1 + from_bool eq1) else rest)
      else if not (n % 2 == 0) && not (eq (test (n - 1)) (expected (n - 1)))
      then some n
      else some 0

  unfoldable pub verify_double : ℕ → (ℕ → A) → (ℕ → A) → Option ℕ
  verify_double n test expected = verify_double_pairs (suc (n / 2)) n test expected 0

unfoldable pub lfsr : ℕ → ℕ
lfsr x = let bit = bit_and (bit_xor x (x >>> 1)) 1 in bit_or (x >>> 1) (u64 (bit <<< 62))

-- `*(unsigned short *) pc`, little-endian, and the test of its two lowest bits.
unfoldable pub insn_len : Mem → ℕ → ℕ
insn_len mem pc = if bit_and (mem pc + mem (pc + 1) * 2 ^ 8) 3 == 0 then 2 else 4
