-- ===== src/Guest/Util/Lfsr.antt =====
-- `lfsr` of benchmarks/common/util.h: a step of a register of 63 bits.
use arc_tests.Prelude.{
  ℕ, ◌+◌, ◌*◌, ◌/◌, ◌%◌, ◌^◌, ◌<◌, ◌≡◌, ap, ◌∙◌, arith, bit_and, bit_or, bit_xor, u64, ◌<<<◌, ◌>>>◌,
}
use mathlib.Core.Path.{ap₂}
use arc_tests.Prelude.Bits.{
  above, bit_or-zero, bit_and-above, bit_or-above, bit_and-zero, bit_and-ones, zero-bit_or,
  bit_xor-parity,
}
use arc_tests.Guest.Util.{lfsr}

bit_and-one : (x : ℕ) → bit_and x 1 ≡ x % 2
bit_and-one x =
    let parts : x ≡ above 1 (x / 2) (x % 2) = omega arith in
    let low : bit_and x 1 ≡ above 1 0 (x % 2) =
      ap (λ t. bit_and t 1) parts
      ∙ bit_and-above 1 (x / 2) (x % 2) 0 1 (omega arith) (omega arith)
      ∙ ap₂ (above 1) (bit_and-zero (x / 2) (x / 2) (omega arith))
          (bit_and-ones 1 (x % 2) (omega arith)) in
    omega (arith, low)

-- The bit that comes in goes above all that are left.
lfsr_parts : (x : ℕ) → x < 2 ^ 63 → lfsr x ≡ (x + x / 2) % 2 * 2 ^ 62 + x / 2
unfolding lfsr
lfsr_parts x h =
    let bit = bit_and (bit_xor x (x >>> 1)) 1 in
    let bit_lem : bit ≡ (x + x / 2) % 2 =
      bit_and-one (bit_xor x (x / 2)) ∙ bit_xor-parity x (x / 2) in
    let low : x >>> 1 ≡ above 62 0 (x / 2) = omega arith in
    let high : u64 (bit <<< 62) ≡ above 62 bit 0 = omega (arith, bit_lem) in
    let joined : bit_or (x >>> 1) (u64 (bit <<< 62)) ≡ above 62 (bit_or 0 bit) (bit_or (x / 2) 0) =
      ap₂ bit_or low high ∙ bit_or-above 62 0 (x / 2) bit 0 (omega (arith, h)) (omega arith) in
    joined ∙ omega (arith, bit_lem, zero-bit_or bit, bit_or-zero (x / 2) (x / 2) (omega arith))

-- `lfsr` permutes the numbers of 63 bits: it gives one of them, and two different ones from different ones.
pub lfsr_permutes :
    (x y : ℕ) → x < 2 ^ 63 → y < 2 ^ 63 → (lfsr x < 2 ^ 63) × (lfsr x ≡ lfsr y → x ≡ y)
lfsr_permutes x y hx hy = (
  omega (arith, hx, lfsr_parts x hx),
  λ e. omega (arith, e, hx, hy, lfsr_parts x hx, lfsr_parts y hy),
)
