-- ===== src/Guest/Copy.antt =====
-- `memcpy` and `memset` of benchmarks/common/syscalls.c, with their loops over words, blocks of eight words and
-- bytes. A loop has fuel (`none` is fuel that ran out); `end` is the address where it stops.
pub mod Block
pub mod Fill
use arc_tests.Prelude.{
  ℕ, zero, suc, ◌+◌, ◌-◌, ◌*◌, ◌%◌, ◌^◌, Option, none, some, ltb, ◌==◌, if◌then◌else◌, List, [],
  ◌∷◌, bit_and, bit_or, u64, ◌<<<◌,
}
use arc_tests.Guest.Memory.{Mem, poke, load64, store64}

-- `n` words from `s` on, all read before any is written.
unfoldable pub load_words : ℕ → Mem → ℕ → List ℕ
load_words zero mem s = []
load_words (suc n) mem s = load64 mem s ∷ load_words n mem (s + 8)

unfoldable pub store_words : Mem → ℕ → List ℕ → Mem
store_words mem d [] = mem
store_words mem d (w ∷ ws) = store_words (store64 mem d w) (d + 8) ws

-- `while (d < end) *d++ = *s++;` over bytes.
unfoldable pub copy_bytes : ℕ → Mem → ℕ → ℕ → ℕ → Option Mem
copy_bytes zero mem d s end = none
copy_bytes (suc fuel) mem d s end =
    let rest = copy_bytes fuel (poke mem d (mem s)) (d + 1) (s + 1) end in
    if ltb d end then rest else some mem

-- The same over words.
unfoldable pub copy_words : ℕ → Mem → ℕ → ℕ → ℕ → Option Mem
copy_words zero mem d s end = none
copy_words (suc fuel) mem d s end =
    let rest = copy_words fuel (store_words mem d (load_words 1 mem s)) (d + 8) (s + 8) end in
    if ltb d end then rest else some mem

-- `while (d + 8 < end)`, a block of eight words at a time, and then the words that are left.
unfoldable pub copy_blocks : ℕ → Mem → ℕ → ℕ → ℕ → Option Mem
copy_blocks zero mem d s end = none
copy_blocks (suc fuel) mem d s end =
    let rest = copy_blocks fuel (store_words mem d (load_words 8 mem s)) (d + 64) (s + 64) end in
    let last = copy_words (suc fuel) mem d s end in if ltb (d + 64) end then rest else last

-- `dest`, `src` and `len` are all multiples of 8.
unfoldable pub memcpy : ℕ → Mem → ℕ → ℕ → ℕ → Option Mem
memcpy fuel mem dest src len =
    if bit_and (bit_or (bit_or dest src) len) 7 == 0
    then copy_blocks fuel mem dest src (dest + len)
    else copy_bytes fuel mem dest src (dest + len)

-- A byte in all eight places of a word, by doubling.
unfoldable pub spread : ℕ → ℕ
spread byte =
    let w₁ = bit_and byte 0xff in
    let w₂ = bit_or w₁ (u64 (w₁ <<< 8)) in
    let w₄ = bit_or w₂ (u64 (w₂ <<< 16)) in bit_or w₄ (u64 (u64 (w₄ <<< 16) <<< 16))

unfoldable pub fill_words : ℕ → Mem → ℕ → ℕ → ℕ → Option Mem
fill_words zero mem d word end = none
fill_words (suc fuel) mem d word end =
    let rest = fill_words fuel (store64 mem d word) (d + 8) word end in
    if ltb d end then rest else some mem

-- A `char` takes the low byte.
unfoldable pub fill_bytes : ℕ → Mem → ℕ → ℕ → ℕ → Option Mem
fill_bytes zero mem d byte end = none
fill_bytes (suc fuel) mem d byte end =
    let rest = fill_bytes fuel (poke mem d (byte % 256)) (d + 1) byte end in
    if ltb d end then rest else some mem

-- `byte` is an `int`, given by its bits as an unsigned number.
unfoldable pub memset : ℕ → Mem → ℕ → ℕ → ℕ → Option Mem
memset fuel mem dest byte len =
    if bit_and (bit_or dest len) 7 == 0
    then fill_words fuel mem dest (spread byte) (dest + len)
    else fill_bytes fuel mem dest byte (dest + len)
