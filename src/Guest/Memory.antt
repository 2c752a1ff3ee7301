-- ===== src/Guest/Memory.antt =====
-- The memory that a benchmark's C code sees: bytes under addresses. A pointer is the number of its first
-- byte. (benchmarks/common/syscalls.c)
use native.Mathlib.Nat.{add-zero}
use arc_tests.Prelude.{
  ap, ℕ, ◌+◌, ◌*◌, ◌/◌, ◌%◌, ◌^◌, ◌<◌, ◌≡◌, arith, ◌>>>◌, Eight, below_eight, ◌==◌, leb, ltb, ◌&&◌,
  ◌-◌, if◌then◌else◌,
}

abbrev pub Mem : Type 0
Mem = ℕ → ℕ

abbrev pub IsBytes : Mem → Type 0
IsBytes mem = (p : ℕ) → mem p < 2 ^ 8

-- `*p = c` on a `char *`.
abbrev pub poke : Mem → ℕ → ℕ → Mem
poke mem p c q = if p == q then c else mem q

-- `*(uint64_t *) p`, little-endian.
unfoldable pub load64 : Mem → ℕ → ℕ
load64 mem p =
    mem p
    + mem (p + 1) * 2 ^ 8
    + mem (p + 2) * 2 ^ 16
    + mem (p + 3) * 2 ^ 24
    + mem (p + 4) * 2 ^ 32
    + mem (p + 5) * 2 ^ 40
    + mem (p + 6) * 2 ^ 48
    + mem (p + 7) * 2 ^ 56

load64_bytes :
    (mem : Mem) (p : ℕ) → IsBytes mem → Eight (λ j. load64 mem p / 2 ^ (j * 8) % 256 ≡ mem (p + j))
unfolding load64
load64_bytes mem p bytes = omega (
  arith,
  ap mem (add-zero p),
  bytes p,
  bytes (p + 1),
  bytes (p + 2),
  bytes (p + 3),
  bytes (p + 4),
  bytes (p + 5),
  bytes (p + 6),
  bytes (p + 7),
)

-- Byte `j` of a loaded word is the byte `j` behind the pointer.
pub load64_byte :
    (mem : Mem) (p j : ℕ) → IsBytes mem → j < 8 → load64 mem p >>> (j * 8) % 256 ≡ mem (p + j)
load64_byte mem p j bytes h =
    below_eight (λ j. load64 mem p >>> (j * 8) % 256 ≡ mem (p + j)) j h (load64_bytes mem p bytes)

-- `*(uint64_t *) p = word`, little-endian.
unfoldable pub store64 : Mem → ℕ → ℕ → Mem
store64 mem p word q = if leb p q && ltb q (p + 8) then word >>> ((q - p) * 8) % 256 else mem q
