-- ===== src/Riscinator/Bytes.antt =====
-- The byte enables of a write in riscinator/riscinator-main.cpp, and the assertion on its index.
use arc_tests.Prelude.{
  ℕ, zero, suc, ◌+◌, ◌-◌, ◌*◌, ◌/◌, ◌%◌, ◌^◌, ◌<◌, ◌≤◌, ◌≡◌, ◌↔◌, refl, ap, ◌∙◌, arith, bit_and,
  bit_or, ◌==◌, if◌then◌else◌, Bool-cases, inl, inr, ltb, below_eight,
}
use mathlib.Core.Path.{ap₂}
use arc_tests.Prelude.Bits.{
  above, bit_and-above, bit_or-above, bit_or-zero, zero-bit_or, bit_and-zero, bit_and-ones,
  bit_and_comm, bit_and-le, zero-bit_and,
}
use arc_tests.Riscinator.Words.{mask_from, be2mask, addr2idx, merge}

-- The index of a 32-bit address is below the number of words exactly if the address lies in the memory, for a
-- memory that ends inside the 32-bit addresses.
addr2idx-lt_iff :
    (addr base len : ℕ)
    → addr < 2 ^ 32
    → base + 4 * len ≤ 2 ^ 32
    → (addr2idx addr base < len) ↔ ((base ≤ addr) × (addr < base + 4 * len))
unfolding addr2idx
addr2idx-lt_iff addr base len h₁ h₂ =
    (λ h. omega (arith, h₁, h₂, h), λ h. omega (arith, h₁, h₂, h.0, h.1))

-- A byte of zeros or of ones.
abbrev fill_byte : ℕ → ℕ
fill_byte e = 255 * e

abbrev four : ℕ → ℕ → ℕ → ℕ → ℕ
four x₀ x₁ x₂ x₃ = above 8 (above 8 (above 8 x₃ x₂) x₁) x₀

abbrev mask_of : ℕ → ℕ → ℕ → ℕ → ℕ
mask_of e₀ e₁ e₂ e₃ = four (fill_byte e₀) (fill_byte e₁) (fill_byte e₂) (fill_byte e₃)

merge_byte :
    (e x y : ℕ)
    → e ≤ 1
    → x < 2 ^ 8
    → y < 2 ^ 8
    → bit_or (bit_and x (fill_byte e)) (bit_and (255 - fill_byte e) y) ≡ (if e == 1 then x else y)
merge_byte zero x y h hx hy =
    rw
      (
        bit_and-zero x x (omega arith),
        bit_and_comm 255 255 y (omega arith) (omega arith),
        bit_and-ones 8 y hy,
        zero-bit_or y,
      )
      refl
merge_byte (suc zero) x y h hx hy =
    ap₂ bit_or (bit_and-ones 8 x hx) (zero-bit_and y) ∙ bit_or-zero x x (omega arith)
merge_byte (suc (suc e)) x y h hx hy = absurd (omega arith)

-- The lowest lane apart from the lanes above it.
merge_above :
    (e wh wl mh nh oh ol : ℕ)
    → e ≤ 1
    → wl < 2 ^ 8
    → ol < 2 ^ 8
    → bit_or
        (bit_and (above 8 wh wl) (above 8 mh (fill_byte e)))
        (bit_and (above 8 nh (255 - fill_byte e)) (above 8 oh ol))
      ≡ above 8 (bit_or (bit_and wh mh) (bit_and nh oh)) (if e == 1 then wl else ol)
merge_above e wh wl mh nh oh ol h hw ho =
    ap₂ bit_or (bit_and-above 8 wh wl mh (fill_byte e) hw (omega arith))
      (bit_and-above 8 nh (255 - fill_byte e) oh ol (omega arith) ho)
    ∙ bit_or-above 8 (bit_and wh mh) (bit_and wl (fill_byte e)) (bit_and nh oh)
        (bit_and (255 - fill_byte e) ol)
        (omega (arith, bit_and-le wl wl (fill_byte e) (omega arith)))
        (omega (arith, bit_and-le 255 (255 - fill_byte e) ol (omega arith)))
    ∙ ap (above 8 (bit_or (bit_and wh mh) (bit_and nh oh))) (merge_byte e wl ol h hw ho)

-- The bit of an enable, and the byte of a word.
abbrev pub bit_of : ℕ → ℕ → ℕ
bit_of be k = be / 2 ^ k % 2

abbrev pub word_byte : ℕ → ℕ → ℕ
word_byte word k = word / 2 ^ (k * 8) % 256

abbrev IsMask : ℕ → Type 0
IsMask be = be2mask be ≡ mask_of (bit_of be 0) (bit_of be 1) (bit_of be 2) (bit_of be 3)

be2mask-IsMask : (be : ℕ) → be < 16 → IsMask be
unfolding be2mask mask_from
be2mask-IsMask be h = elim (Bool-cases (ltb be 8)) [
  | inl low ↦ below_eight IsMask be (ground arith) (refl, refl, refl, refl, refl, refl, refl, refl)
  | inr high ↦
      let back : be - 8 + 8 ≡ be = ground arith in
      rw (← back) (
        below_eight (λ j. IsMask (j + 8)) (be - 8) (ground arith)
          (refl, refl, refl, refl, refl, refl, refl, refl))
]

-- The byte that is chosen for a lane.
abbrev lane : ℕ → ℕ → ℕ → ℕ → ℕ
lane be write old k = if bit_of be k == 1 then word_byte write k else word_byte old k

merge-four :
    (write be old : ℕ)
    → be < 16
    → write < 2 ^ 32
    → old < 2 ^ 32
    → merge write (be2mask be) old
      ≡ four (lane be write old 0) (lane be write old 1) (lane be write old 2) (lane be write old 3)
unfolding merge
merge-four write be old hb hw ho =
    let b₀ = bit_of be 0 in
    let b₁ = bit_of be 1 in
    let b₂ = bit_of be 2 in
    let b₃ = bit_of be 3 in
    let w = word_byte write in
    let o = word_byte old in
    let ew : write ≡ four (w 0) (w 1) (w 2) (w 3) = omega (arith, hw) in
    let eo : old ≡ four (o 0) (o 1) (o 2) (o 3) = omega (arith, ho) in
    let em = be2mask-IsMask be hb in
    let en : 2 ^ 32 - 1 - be2mask be
        ≡ four (255 - fill_byte b₀) (255 - fill_byte b₁) (255 - fill_byte b₂) (255 - fill_byte b₃) =
      omega (arith, em) in
    let m₂ = above 8 (fill_byte b₃) (fill_byte b₂) in
    let m₁ = above 8 m₂ (fill_byte b₁) in
    let n₂ = above 8 (255 - fill_byte b₃) (255 - fill_byte b₂) in
    let n₁ = above 8 n₂ (255 - fill_byte b₁) in
    let w₂ = above 8 (w 3) (w 2) in
    let w₁ = above 8 w₂ (w 1) in
    let o₂ = above 8 (o 3) (o 2) in
    let o₁ = above 8 o₂ (o 1) in
    let top = merge_byte b₃ (w 3) (o 3) (omega arith) (omega arith) (omega arith) in
    let second =
      merge_above b₂ (w 3) (w 2) (fill_byte b₃) (255 - fill_byte b₃) (o 3) (o 2) (omega arith)
        (omega arith) (omega arith)
      ∙ ap (λ t. above 8 t (lane be write old 2)) top in
    let third =
      merge_above b₁ w₂ (w 1) m₂ n₂ o₂ (o 1) (omega arith) (omega arith) (omega arith)
      ∙ ap (λ t. above 8 t (lane be write old 1)) second in
    ap₂ bit_or (ap₂ bit_and ew em) (ap₂ bit_and en eo)
    ∙ merge_above b₀ w₁ (w 0) m₁ n₁ o₁ (o 0) (omega arith) (omega arith) (omega arith)
    ∙ ap (λ t. above 8 t (lane be write old 0)) third

below_four : (P : ℕ → Type 0) (k : ℕ) → k < 4 → P 0 × P 1 × P 2 × P 3 → P k
below_four P zero h all = all.0
below_four P (suc zero) h all = all.1
below_four P (suc (suc zero)) h all = all.2
below_four P (suc (suc (suc zero))) h all = all.3
below_four P (suc (suc (suc (suc k)))) h all = absurd (omega arith)

lane-lt : (be write old k : ℕ) → lane be write old k < 2 ^ 8
lane-lt be write old k = ground arith

four_bytes :
    (x₀ x₁ x₂ x₃ : ℕ)
    → x₀ < 2 ^ 8
    → x₁ < 2 ^ 8
    → x₂ < 2 ^ 8
    → x₃ < 2 ^ 8
    → (word_byte (four x₀ x₁ x₂ x₃) 0 ≡ x₀)
      × (word_byte (four x₀ x₁ x₂ x₃) 1 ≡ x₁)
      × (word_byte (four x₀ x₁ x₂ x₃) 2 ≡ x₂)
      × (word_byte (four x₀ x₁ x₂ x₃) 3 ≡ x₃)
four_bytes x₀ x₁ x₂ x₃ h₀ h₁ h₂ h₃ = omega arith

-- A write with byte enables below 16 replaces, in a word of 32 bits, exactly the bytes whose bit is set.
pub word_byte-merge :
    (write be old k : ℕ)
    → be < 16
    → write < 2 ^ 32
    → old < 2 ^ 32
    → k < 4
    → word_byte (merge write (be2mask be) old) k
      ≡ (if bit_of be k == 1 then word_byte write k else word_byte old k)
word_byte-merge write be old k hb hw ho hk =
    let l = lane be write old in
    let lt = lane-lt be write old in
    let split = four_bytes (l 0) (l 1) (l 2) (l 3) (lt 0) (lt 1) (lt 2) (lt 3) in
    let word = four (l 0) (l 1) (l 2) (l 3) in
    ap (λ word. word_byte word k) (merge-four write be old hb hw ho)
    ∙ below_four (λ j. word_byte word j ≡ l j) k hk split
