-- ===== src/Host/Memory.antt =====
-- `std::map<uint64_t, uint64_t> memory` of rocket/rocket-main.cpp: 64-bit words under their addresses, the
-- multiples of 8.
use arc_tests.Prelude.{ℕ, ◌*◌, ◌/◌, ◌%◌, ◌^◌, ◌<◌, ◌≡◌, arith, Option, some, ◌==◌, if◌then◌else◌}
use mathlib.Core.Option
use arc_tests.Host.Word.{set_byte, get_byte, get_byte-set_byte}

abbrev pub Memory : Type 0
Memory = ℕ → Option ℕ

-- The key of the word that holds an address.
abbrev pub word_of : ℕ → ℕ
word_of addr = addr / 8 * 8

-- `memory[addr]` as a value: a word that is missing is made, with the value 0.
abbrev pub slot : Memory → ℕ → ℕ
slot mem addr = Option.get_or (mem addr) 0

-- `memory[addr] = word`.
abbrev pub assign : Memory → ℕ → ℕ → Memory
assign mem addr word key = if addr == key then some word else mem key

-- A word that is only read by `memory[addr]` is there afterwards.
abbrev pub touch : Memory → ℕ → Memory
touch mem addr = assign mem addr (slot mem addr)

-- The byte at an address; a missing word reads as zeros.
abbrev pub byte_at : Memory → ℕ → ℕ
byte_at mem addr = get_byte (slot mem (word_of addr)) (addr % 8)

-- The body of the loader's loop: one byte stored at an address.
unfoldable pub store_byte : Memory → ℕ → ℕ → Memory
store_byte mem addr byte =
    let key = word_of addr in assign mem key (set_byte (slot mem key) (addr % 8) byte)

-- All words have 64 bits.
abbrev pub IsWords : Memory → Type 0
IsWords mem = (key : ℕ) → slot mem key < 2 ^ 64

pub store_byte-IsWords :
    (mem : Memory) (addr byte : ℕ) → IsWords mem → byte < 2 ^ 8 → IsWords (store_byte mem addr byte)
unfolding store_byte
store_byte-IsWords mem addr byte words small key = ground (
  arith,
  words key,
  get_byte-set_byte (slot mem (word_of addr)) (addr % 8) byte 0 (words (word_of addr)) (omega arith)
      small (omega arith),
)

-- A stored byte is read back, and no other byte changes.
pub byte_at-store_byte :
    (mem : Memory) (addr byte other : ℕ)
    → IsWords mem
    → byte < 2 ^ 8
    → byte_at (store_byte mem addr byte) other ≡ (if addr == other then byte else byte_at mem other)
unfolding store_byte
byte_at-store_byte mem addr byte other words small = ground (
  arith,
  get_byte-set_byte (slot mem (word_of addr)) (addr % 8) byte (other % 8) (words (word_of addr))
      (omega arith) small (omega arith),
)
