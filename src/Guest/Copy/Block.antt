-- ===== src/Guest/Copy/Block.antt =====
-- `memcpy` of benchmarks/common/syscalls.c and the range that it copies, on both of its paths.
use arc_tests.Prelude.{
  ℕ, zero, suc, ◌+◌, ◌-◌, ◌*◌, ◌%◌, ◌<◌, ◌≤◌, ◌≡◌, ◌⊎◌, refl, arith, some, ltb, leb, ◌==◌, ◌&&◌,
  if◌then◌else◌, Bool-cases, inl, inr, bit_and, bit_or,
}
use arc_tests.Prelude.Bits.Low.{bit_and-seven, aligned_both}
use arc_tests.Guest.Memory.{Mem, IsBytes, poke, load64, store64, load64_byte}
use arc_tests.Guest.Copy.{load_words, store_words, copy_bytes, copy_words, copy_blocks, memcpy}

-- `mem'` is `mem` with the `n` bytes at `s` copied to `d`.
abbrev pub Copied : Mem → ℕ → ℕ → ℕ → Mem → Type 0
Copied mem d s n mem' =
    (q : ℕ) → mem' q ≡ (if leb d q && ltb q (d + n) then mem (s + (q - d)) else mem q)

-- The ranges do not overlap.
abbrev pub Apart : ℕ → ℕ → ℕ → Type 0
Apart d s n = (d + n ≤ s) ⊎ (s + n ≤ d)

-- A copy of the first `w` bytes and one of the rest.
Copied-trans :
    (mem mem₁ mem₂ : Mem) (d s w k : ℕ)
    → Apart d s k
    → w ≤ k
    → Copied mem d s w mem₁
    → Copied mem₁ (d + w) (s + w) (k - w) mem₂
    → Copied mem d s k mem₂
Copied-trans mem mem₁ mem₂ d s w k apart le one two q =
    ground (arith, one q, two q, one (s + w + (q - (d + w))))

Copied-IsBytes : (mem mem₁ : Mem) (d s n : ℕ) → Copied mem d s n mem₁ → IsBytes mem → IsBytes mem₁
Copied-IsBytes mem mem₁ d s n copied bytes q =
    ground (arith, copied q, bytes q, bytes (s + (q - d)))

store64-load64 :
    (mem from : Mem) (d s q : ℕ)
    → IsBytes from
    → store64 mem d (load64 from s) q
      ≡ (if leb d q && ltb q (d + 8) then from (s + (q - d)) else mem q)
unfolding store64
store64-load64 mem from d s q bytes = ground (arith, load64_byte from s (q - d) bytes)

-- Words that are read first and written later arrive as they were read.
store_words-load_words :
    (n : ℕ) (mem from : Mem) (d s : ℕ)
    → IsBytes from
    → (q : ℕ)
    → store_words mem d (load_words n from s) q
      ≡ (if leb d q && ltb q (d + n * 8) then from (s + (q - d)) else mem q)
unfolding store_words load_words
store_words-load_words zero mem from d s bytes q = ground arith
store_words-load_words (suc n) mem from d s bytes q = ground (
  arith,
  store64-load64 mem from d s q bytes,
  store_words-load_words n (store64 mem d (load64 from s)) from (d + 8) (s + 8) bytes q,
)

copy_bytes-Copied :
    (fuel : ℕ) (mem : Mem) (d s k : ℕ)
    → IsBytes mem
    → Apart d s k
    → k < fuel
    → (mem' : Mem) × (copy_bytes fuel mem d s (d + k) ≡ some mem') × Copied mem d s k mem'
unfolding copy_bytes
copy_bytes-Copied zero mem d s k bytes apart lt = absurd (omega arith)
copy_bytes-Copied (suc fuel) mem d s k bytes apart lt = elim (Bool-cases (ltb d (d + k))) [
  | inr ends ↦ (mem, rw ends refl, λ q. ground arith)
  | inl more ↦
      let mem₁ = poke mem d (mem s) in
      let one : Copied mem d s 1 mem₁ = λ q. ground arith in
      let bytes₁ = Copied-IsBytes mem mem₁ d s 1 one bytes in
      let (mem₂, runs, two) =
        copy_bytes-Copied fuel mem₁ (d + 1) (s + 1) (k - 1) bytes₁ (ground arith) (ground arith) in
      let end : d + k ≡ d + 1 + (k - 1) = ground arith in
      (mem₂, rw more (rw end runs), Copied-trans mem mem₁ mem₂ d s 1 k apart (ground arith) one two)
]

copy_words-Copied :
    (fuel : ℕ) (mem : Mem) (d s k : ℕ)
    → IsBytes mem
    → k % 8 ≡ 0
    → Apart d s k
    → k < fuel
    → (mem' : Mem) × (copy_words fuel mem d s (d + k) ≡ some mem') × Copied mem d s k mem'
unfolding copy_words
copy_words-Copied zero mem d s k bytes whole apart lt = absurd (omega arith)
copy_words-Copied (suc fuel) mem d s k bytes whole apart lt = elim (Bool-cases (ltb d (d + k))) [
  | inr ends ↦ (mem, rw ends refl, λ q. ground arith)
  | inl more ↦
      let mem₁ = store_words mem d (load_words 1 mem s) in
      let one : Copied mem d s 8 mem₁ = store_words-load_words 1 mem mem d s bytes in
      let bytes₁ = Copied-IsBytes mem mem₁ d s 8 one bytes in
      let (mem₂, runs, two) =
        copy_words-Copied fuel mem₁ (d + 8) (s + 8) (k - 8) bytes₁ (ground arith) (ground arith)
          (ground arith) in
      let end : d + k ≡ d + 8 + (k - 8) = ground arith in
      (mem₂, rw more (rw end runs), Copied-trans mem mem₁ mem₂ d s 8 k apart (ground arith) one two)
]

copy_blocks-Copied :
    (fuel : ℕ) (mem : Mem) (d s k : ℕ)
    → IsBytes mem
    → k % 8 ≡ 0
    → Apart d s k
    → k < fuel
    → (mem' : Mem) × (copy_blocks fuel mem d s (d + k) ≡ some mem') × Copied mem d s k mem'
unfolding copy_blocks
copy_blocks-Copied zero mem d s k bytes whole apart lt = absurd (omega arith)
copy_blocks-Copied (suc fuel) mem d s k bytes whole apart lt =
    elim (Bool-cases (ltb (d + 64) (d + k))) [
      | inr ends ↦ rw ends (copy_words-Copied (suc fuel) mem d s k bytes whole apart lt)
      | inl more ↦
          let mem₁ = store_words mem d (load_words 8 mem s) in
          let one : Copied mem d s 64 mem₁ = store_words-load_words 8 mem mem d s bytes in
          let bytes₁ = Copied-IsBytes mem mem₁ d s 64 one bytes in
          let (mem₂, runs, two) =
            copy_blocks-Copied fuel mem₁ (d + 64) (s + 64) (k - 64) bytes₁ (ground arith)
              (ground arith) (ground arith) in
          let end : d + k ≡ d + 64 + (k - 64) = ground arith in
          (
            mem₂,
            rw more (rw end runs),
            Copied-trans mem mem₁ mem₂ d s 64 k apart (ground arith) one two,
          )
    ]

-- `memcpy` between ranges that do not overlap returns, and has copied its range, byte for byte, and changed nothing else,
-- whether it takes the path over words or the one over bytes.
pub memcpy-Copied :
    (fuel : ℕ) (mem : Mem) (dest src len : ℕ)
    → IsBytes mem
    → Apart dest src len
    → len < fuel
    → (mem' : Mem) × (memcpy fuel mem dest src len ≡ some mem') × Copied mem dest src len mem'
unfolding memcpy
memcpy-Copied fuel mem dest src len bytes apart lt =
    elim (Bool-cases (bit_and (bit_or (bit_or dest src) len) 7 == 0)) [
      | inr odd ↦ rw odd (copy_bytes-Copied fuel mem dest src len bytes apart lt)
      | inl aligned ↦
          let low = bit_and-seven (bit_or (bit_or dest src) len) in
          let whole = aligned_both (bit_or dest src) len (ground arith) in
          rw aligned (copy_blocks-Copied fuel mem dest src len bytes whole.1 apart lt)
    ]
