-- ===== src/Riscinator/Words.antt =====
-- Words of the memory of riscinator/riscinator-main.cpp: byte enables and indices.
use arc_tests.Prelude.{
  ℕ, zero, suc, ◌+◌, ◌-◌, ◌*◌, ◌/◌, ◌^◌, bit_and, bit_or, u32, sub64, ◌==◌, ◌<<<◌, if◌then◌else◌,
}

-- `MEMSIZE`, in words.
abbrev pub mem_size : ℕ
mem_size = 8192 * 8

abbrev pub mem_base : ℕ
mem_base = 0x100000

-- The loop of `be2mask` from byte `i` on, with the rounds that are left.
unfoldable pub mask_from : ℕ → ℕ → ℕ → ℕ → ℕ
mask_from zero i be mask = mask
mask_from (suc left) i be mask =
    mask_from left (i + 1) be
      (if bit_and be (1 <<< i) == 0 then mask else bit_or mask (u32 (0xff <<< (i * 8))))

unfoldable pub be2mask : ℕ → ℕ
be2mask be = mask_from 4 0 be 0

-- The address has 32 bits and the base 64: the difference wraps at 64 bits, and the index is cut to 32.
unfoldable pub addr2idx : ℕ → ℕ → ℕ
addr2idx addr base = u32 (sub64 addr base / 4)

-- `(write & mask) | (~mask & mem[memidx])`.
unfoldable pub merge : ℕ → ℕ → ℕ → ℕ
merge write mask old = bit_or (bit_and write mask) (bit_and (2 ^ 32 - 1 - mask) old)
