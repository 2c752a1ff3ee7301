-- ===== src/Host/Word.antt =====
-- The eight bytes of a 64-bit memory word, as the ELF loader of rocket/rocket-main.cpp replaces one of them.
use arc_tests.Prelude.{
  ℕ, ◌+◌, ◌-◌, ◌*◌, ◌/◌, ◌%◌, ◌^◌, ◌<◌, ◌≡◌, refl, arith, bit_and, bit_or, u64, ◌<<<◌, ◌>>>◌, ◌==◌,
  if◌then◌else◌, below_eight, Eight,
}
use mathlib.Core.Path.{ap₂, ◌∙◌}
use native.Mathlib.Nat.{one-le-pow}
use arc_tests.Prelude.Bits.{
  above, bit_and-above, bit_or-above, bit_or-zero, zero-bit_or, bit_and-zero, bit_and-ones,
}

-- `~x` of a `uint64_t`.
abbrev pub not64 : ℕ → ℕ
not64 x = 2 ^ 64 - 1 - x

-- `slot &= ~(0xFF << (k * 8)); slot |= data << (k * 8)`.
unfoldable pub set_byte : ℕ → ℕ → ℕ → ℕ
set_byte slot k byte =
    bit_or (bit_and slot (not64 (u64 (0xff <<< (k * 8))))) (u64 (byte <<< (k * 8)))

abbrev pub get_byte : ℕ → ℕ → ℕ
get_byte slot k = slot >>> (k * 8) % 256

-- Replace the middle of a word by masking, at any position.
replace_middle :
    (n w hi mid lo byte : ℕ)
    → lo < 2 ^ n
    → hi < 2 ^ w
    → mid < 2 ^ 8
    → byte < 2 ^ 8
    → bit_or
        (bit_and (above n (above 8 hi mid) lo) (above n (above 8 (2 ^ w - 1) 0) (2 ^ n - 1)))
        (above n (above 8 0 byte) 0)
      ≡ above n (above 8 hi byte) lo
replace_middle n w hi mid lo byte hlo hhi hmid hbyte =
    let ones : 2 ^ n - 1 < 2 ^ n = omega (arith, one-le-pow n 2) in
    let cleared : bit_and (above n (above 8 hi mid) lo)
          (above n (above 8 (2 ^ w - 1) 0) (2 ^ n - 1))
        ≡ above n (above 8 hi 0) lo =
      rw
        (
          bit_and-above n (above 8 hi mid) lo (above 8 (2 ^ w - 1) 0) (2 ^ n - 1) hlo ones,
          bit_and-above 8 hi mid (2 ^ w - 1) 0 hmid (omega arith),
          bit_and-ones w hi hhi,
          bit_and-zero mid mid (omega arith),
          bit_and-ones n lo hlo,
        )
        refl in
    rw
      (
        cleared,
        bit_or-above n (above 8 hi 0) lo (above 8 0 byte) 0 hlo (omega (arith, one-le-pow n 2)),
        bit_or-above 8 hi 0 0 byte (omega arith) hbyte,
        bit_or-zero hi hi (omega arith),
        zero-bit_or byte,
        bit_or-zero lo lo (omega arith),
      )
      refl

-- What `set_byte` gives, as a sum.
abbrev spliced : ℕ → ℕ → ℕ → ℕ
spliced slot k byte = above (k * 8) (above 8 (slot / 2 ^ (k * 8 + 8)) byte) (slot % 2 ^ (k * 8))

-- The facts that are arithmetic at each of the eight positions: the mask, the parts of the word and
-- the shifted byte.
record IsPosition (slot byte k : ℕ) : Type 0 where
  mask :
      not64 (u64 (0xff <<< (k * 8)))
      ≡ above (k * 8) (above 8 (2 ^ (56 - k * 8) - 1) 0) (2 ^ (k * 8) - 1)
  parts :
      slot
      ≡ above
          (k * 8)
          (above 8 (slot / 2 ^ (k * 8 + 8)) (slot / 2 ^ (k * 8) % 256))
          (slot % 2 ^ (k * 8))
  shifted : u64 (byte <<< (k * 8)) ≡ above (k * 8) (above 8 0 byte) 0
  hi : slot / 2 ^ (k * 8 + 8) < 2 ^ (56 - k * 8)
  lo : slot % 2 ^ (k * 8) < 2 ^ (k * 8)

set_byte_at :
    (slot k byte : ℕ)
    → IsPosition slot byte k
    → byte < 2 ^ 8
    → set_byte slot k byte ≡ spliced slot k byte
unfolding set_byte
set_byte_at slot k byte at small =
    ap₂ bit_or (ap₂ bit_and at.parts at.mask) at.shifted
    ∙ replace_middle (k * 8) (56 - k * 8) (slot / 2 ^ (k * 8 + 8)) (slot / 2 ^ (k * 8) % 256)
        (slot % 2 ^ (k * 8)) byte at.lo at.hi (omega arith) small

set_byte-spliced :
    (slot k byte : ℕ)
    → k < 8
    → slot < 2 ^ 64
    → byte < 2 ^ 8
    → set_byte slot k byte ≡ spliced slot k byte
set_byte-spliced slot k byte h fits small = set_byte_at slot k byte at small
  where
    at : IsPosition slot byte k
    at = below_eight (IsPosition slot byte) k h (omega arith)

-- A spliced word is a word, with the new byte in its place and the others as they were.
abbrev KeepsByte : ℕ → ℕ → ℕ → ℕ → Type 0
KeepsByte slot byte k j =
    get_byte (spliced slot k byte) j ≡ (if j == k then byte else get_byte slot j)

spliced_table :
    (slot byte : ℕ)
    → slot < 2 ^ 64
    → byte < 2 ^ 8
    → Eight (λ k. (spliced slot k byte < 2 ^ 64) × Eight (KeepsByte slot byte k))
spliced_table slot byte fits small = omega arith

-- `set_byte` writes byte `k` of a 64-bit word and no other: the result is a 64-bit word whose byte `k`
-- is the new byte, and whose other seven bytes are the old ones.
pub get_byte-set_byte :
    (slot k byte j : ℕ)
    → slot < 2 ^ 64
    → k < 8
    → byte < 2 ^ 8
    → j < 8
    → (set_byte slot k byte < 2 ^ 64)
      × (get_byte (set_byte slot k byte) j ≡ (if j == k then byte else get_byte slot j))
get_byte-set_byte slot k byte j fits hk small hj =
    let (word, bytes) =
      below_eight (λ k. (spliced slot k byte < 2 ^ 64) × Eight (KeepsByte slot byte k)) k hk
        (spliced_table slot byte fits small) in
    rw (set_byte-spliced slot k byte hk fits small)
      (word, below_eight (KeepsByte slot byte k) j hj bytes)
