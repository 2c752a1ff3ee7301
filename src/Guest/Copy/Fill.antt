-- ===== src/Guest/Copy/Fill.antt =====
-- That `memset` of benchmarks/common/syscalls.c fills its range, on each of its two paths.
use arc_tests.Prelude.{
  ℕ, zero, suc, ◌+◌, ◌-◌, ◌*◌, ◌/◌, ◌%◌, ◌^◌, ◌<◌, ◌≡◌, inl, inr, refl, ap, ◌∙◌, arith, some, true,
  ltb, leb, ◌==◌, ◌&&◌, if◌then◌else◌, Bool-cases, bit_and, bit_or, u64, ◌<<<◌, ◌>>>◌, Eight,
  below_eight,
}
use mathlib.Core.Path.{ap₂}
use arc_tests.Prelude.Bits.{
  above, bit_and-above, bit_or-above, bit_and-zero, bit_and-ones, bit_or-zero, zero-bit_or,
}
use arc_tests.Prelude.Bits.Low.{bit_and-seven, aligned_both}
use arc_tests.Guest.Memory.{Mem, poke, store64}
use arc_tests.Guest.Copy.{spread, fill_words, fill_bytes, memset}

bit_and-byte : (x : ℕ) → bit_and x 0xff ≡ x % 256
bit_and-byte x =
    let parts : x ≡ above 8 (x / 256) (x % 256) = omega arith in
    let low : bit_and x 0xff ≡ above 8 0 (x % 256) =
      ap (λ t. bit_and t 0xff) parts
      ∙ bit_and-above 8 (x / 256) (x % 256) 0 0xff (omega arith) (omega arith)
      ∙ ap₂ (above 8) (bit_and-zero (x / 256) (x / 256) (omega arith))
          (bit_and-ones 8 (x % 256) (omega arith)) in
    omega (arith, low)

-- A number and the same number above it.
doubled : (n x : ℕ) → x < 2 ^ n → bit_or x (x * 2 ^ n) ≡ x * 2 ^ n + x
doubled n x h =
    let low : x ≡ above n 0 x = omega arith in
    let high : x * 2 ^ n ≡ above n x 0 = omega arith in
    ap₂ bit_or low high
    ∙ bit_or-above n 0 x x 0 h (omega (arith, h))
    ∙ ap₂ (above n) (zero-bit_or x) (bit_or-zero x x (omega arith))

-- The byte in all eight places.
spread_lem : (byte : ℕ) → spread byte ≡ byte % 256 * 0x0101010101010101
unfolding spread
spread_lem byte =
    let b = byte % 256 in
    let first = bit_and-byte byte in
    let cut₂ : u64 (b <<< 8) ≡ b * 2 ^ 8 = omega arith in
    let cut₄ : u64 ((b * 257) <<< 16) ≡ b * 257 * 2 ^ 16 = omega arith in
    let cut₈ : u64 (u64 ((b * 0x01010101) <<< 16) <<< 16) ≡ b * 0x01010101 * 2 ^ 32 = omega arith in
    let second : bit_or b (b * 2 ^ 8) ≡ b * 257 = omega (arith, doubled 8 b (omega arith)) in
    let fourth : bit_or (b * 257) (b * 257 * 2 ^ 16) ≡ b * 0x01010101 =
      omega (arith, doubled 16 (b * 257) (omega arith)) in
    let eighth : bit_or (b * 0x01010101) (b * 0x01010101 * 2 ^ 32) ≡ b * 0x0101010101010101 =
      omega (arith, doubled 32 (b * 0x01010101) (omega arith)) in
    rw (first, cut₂, second, cut₄, fourth, cut₈) eighth

spread_byte : (byte j : ℕ) → j < 8 → spread byte >>> (j * 8) % 256 ≡ byte % 256
spread_byte byte j h =
    let all : Eight (λ j. spread byte / 2 ^ (j * 8) % 256 ≡ byte % 256) =
      omega (arith, spread_lem byte) in
    below_eight (λ j. spread byte >>> (j * 8) % 256 ≡ byte % 256) j h all

-- A memory whose `k` bytes from `d` on are `b`, and which else is as before.
abbrev pub Filled : Mem → ℕ → ℕ → ℕ → Mem → Type 0
Filled mem d b k mem' = (q : ℕ) → mem' q ≡ (if leb d q && ltb q (d + k) then b else mem q)

store64-spread :
    (mem : Mem) (d byte : ℕ) → Filled mem d (byte % 256) 8 (store64 mem d (spread byte))
unfolding store64
store64-spread mem d byte q = elim (Bool-cases (leb d q && ltb q (d + 8))) [
  | inl inside ↦ rw inside (spread_byte byte (q - d) (ground (arith, inside)))
  | inr outside ↦ rw outside refl
]

Filled-trans :
    (mem mem₁ mem₂ : Mem) (d b k l : ℕ)
    → Filled mem d b k mem₁
    → Filled mem₁ (d + k) b l mem₂
    → Filled mem d b (k + l) mem₂
Filled-trans mem mem₁ mem₂ d b k l one two q = ground (arith, one q, two q)

fill_bytes-Filled :
    (fuel : ℕ) (mem : Mem) (d byte k : ℕ)
    → k < fuel
    → (mem' : Mem) × (fill_bytes fuel mem d byte (d + k) ≡ some mem')
      × Filled mem d (byte % 256) k mem'
unfolding fill_bytes
fill_bytes-Filled zero mem d byte k lt = absurd (omega arith)
fill_bytes-Filled (suc fuel) mem d byte zero lt = (mem, ground arith, λ q. ground arith)
fill_bytes-Filled (suc fuel) mem d byte (suc k) lt =
    let mem₁ = poke mem d (byte % 256) in
    let one : Filled mem d (byte % 256) 1 mem₁ = λ q. ground arith in
    let (mem₂, runs, two) = fill_bytes-Filled fuel mem₁ (d + 1) byte k (omega (arith, lt)) in
    let end : d + suc k ≡ d + 1 + k = omega arith in
    let count : suc k ≡ 1 + k = omega arith in
    let more : ltb d (d + suc k) ≡ true = ground arith in
    (mem₂, rw more (rw end runs), rw count (Filled-trans mem mem₁ mem₂ d (byte % 256) 1 k one two))

fill_words-Filled :
    (fuel : ℕ) (mem : Mem) (d byte k : ℕ)
    → k % 8 ≡ 0
    → k < fuel
    → (mem' : Mem) × (fill_words fuel mem d (spread byte) (d + k) ≡ some mem')
      × Filled mem d (byte % 256) k mem'
unfolding fill_words
fill_words-Filled zero mem d byte k whole lt = absurd (omega arith)
fill_words-Filled (suc fuel) mem d byte k whole lt = elim (Bool-cases (ltb d (d + k))) [
  | inr ends ↦ (mem, rw ends refl, λ q. ground (arith, ends))
  | inl more ↦
      let mem₁ = store64 mem d (spread byte) in
      let one = store64-spread mem d byte in
      let (mem₂, runs, two) =
        fill_words-Filled fuel mem₁ (d + 8) byte (k - 8) (ground (arith, more, whole))
          (ground (arith, more, whole, lt)) in
      let end : d + k ≡ d + 8 + (k - 8) = ground (arith, more, whole) in
      let count : k ≡ 8 + (k - 8) = ground (arith, more, whole) in
      (
        mem₂,
        rw more (rw end runs),
        λ q. ground (arith, Filled-trans mem mem₁ mem₂ d (byte % 256) 8 (k - 8) one two q, count),
      )
]

-- `memset` returns, and each byte of its range is then the low byte of the number that it is given, and every other byte is as
-- before, whether it takes the path over words or the one over bytes.
pub memset-Filled :
    (fuel : ℕ) (mem : Mem) (dest byte len : ℕ)
    → len < fuel
    → (mem' : Mem) × (memset fuel mem dest byte len ≡ some mem')
      × Filled mem dest (byte % 256) len mem'
unfolding memset
memset-Filled fuel mem dest byte len lt = elim (Bool-cases (bit_and (bit_or dest len) 7 == 0)) [
  | inr odd ↦ rw odd (fill_bytes-Filled fuel mem dest byte len lt)
  | inl aligned ↦
      let low = bit_and-seven (bit_or dest len) in
      let whole = aligned_both dest len (ground (arith, low, aligned)) in
      rw aligned (fill_words-Filled fuel mem dest byte len whole.1 lt)
]
