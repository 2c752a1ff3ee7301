-- ===== src/Riscinator/Image.antt =====
-- The programs in riscinator/itype_mem.h and riscinator/jmps_mem.h, and words of such arrays of bytes.
use arc_tests.Prelude.{ℕ, ◌+◌, ◌*◌, ◌^◌, List, [], ◌∷◌, get_or}

-- `((uint32_t*) bytes)[i]`, on a machine that puts the lowest byte first.
unfoldable pub word_at : List ℕ → ℕ → ℕ
word_at bytes i =
    get_or bytes (i * 4) 0
    + 2 ^ 8 * get_or bytes (i * 4 + 1) 0
    + 2 ^ 16 * get_or bytes (i * 4 + 2) 0
    + 2 ^ 24 * get_or bytes (i * 4 + 3) 0

abbrev pub itype_bin : List ℕ
itype_bin =
    0x93 ∷ 0x00 ∷ 0xf0 ∷ 0x03 ∷ 0x13 ∷ 0xf1 ∷ 0x30 ∷ 0x04 ∷ 0x93 ∷ 0x61 ∷ 0x01 ∷ 0x04 ∷ 0x13 ∷ 0xc2
    ∷ 0x01 ∷ 0x04 ∷ 0x93 ∷ 0x62 ∷ 0xf0 ∷ 0xff ∷ 0x13 ∷ 0x23 ∷ 0x00 ∷ 0x00 ∷ 0x93 ∷ 0x23 ∷ 0xa0
    ∷ 0x00 ∷ 0x13 ∷ 0x94 ∷ 0x43 ∷ 0x01 ∷ 0x13 ∷ 0x04 ∷ 0x44 ∷ 0x00 ∷ 0x23 ∷ 0x20 ∷ 0x14 ∷ 0x00
    ∷ 0x23 ∷ 0x2e ∷ 0x24 ∷ 0xfe ∷ 0x23 ∷ 0x22 ∷ 0x34 ∷ 0x00 ∷ 0x83 ∷ 0x24 ∷ 0x04 ∷ 0x00 ∷ 0x03
    ∷ 0x25 ∷ 0xc4 ∷ 0xff ∷ 0x83 ∷ 0x25 ∷ 0x44 ∷ 0x00 ∷ 0x6f ∷ 0x00 ∷ 0x00 ∷ 0x00 ∷ []

abbrev pub itype_bin_len : ℕ
itype_bin_len = 64

abbrev pub jmps_bin : List ℕ
jmps_bin =
    0x13 ∷ 0x0d ∷ 0xf0 ∷ 0x03 ∷ 0x13 ∷ 0x71 ∷ 0x3d ∷ 0x04 ∷ 0x93 ∷ 0x61 ∷ 0x01 ∷ 0x04 ∷ 0x13 ∷ 0xc2
    ∷ 0x01 ∷ 0x04 ∷ 0x93 ∷ 0x62 ∷ 0xf0 ∷ 0xff ∷ 0x13 ∷ 0x23 ∷ 0x00 ∷ 0x00 ∷ 0x93 ∷ 0x23 ∷ 0xa0
    ∷ 0x00 ∷ 0x13 ∷ 0x94 ∷ 0x43 ∷ 0x01 ∷ 0x13 ∷ 0x04 ∷ 0x44 ∷ 0x00 ∷ 0x23 ∷ 0x20 ∷ 0xa4 ∷ 0x01
    ∷ 0x23 ∷ 0x2e ∷ 0x24 ∷ 0xfe ∷ 0x23 ∷ 0x22 ∷ 0x34 ∷ 0x00 ∷ 0x83 ∷ 0x24 ∷ 0x04 ∷ 0x00 ∷ 0x03
    ∷ 0x25 ∷ 0xc4 ∷ 0xff ∷ 0x83 ∷ 0x25 ∷ 0x44 ∷ 0x00 ∷ 0x6f ∷ 0x00 ∷ 0x00 ∷ 0x01 ∷ 0x13 ∷ 0x06
    ∷ 0x10 ∷ 0x00 ∷ 0x6f ∷ 0x00 ∷ 0x00 ∷ 0x01 ∷ 0x13 ∷ 0x06 ∷ 0x10 ∷ 0x00 ∷ 0x6f ∷ 0xf0 ∷ 0x9f
    ∷ 0xff ∷ 0x13 ∷ 0x06 ∷ 0x10 ∷ 0x00 ∷ 0x93 ∷ 0x96 ∷ 0x43 ∷ 0x01 ∷ 0x93 ∷ 0x86 ∷ 0x06 ∷ 0x07
    ∷ 0x67 ∷ 0x80 ∷ 0x06 ∷ 0x00 ∷ 0x13 ∷ 0x07 ∷ 0x10 ∷ 0x00 ∷ 0x93 ∷ 0x07 ∷ 0x10 ∷ 0x00 ∷ 0xef
    ∷ 0x00 ∷ 0x80 ∷ 0x00 ∷ 0x13 ∷ 0x08 ∷ 0x10 ∷ 0x00 ∷ 0x93 ∷ 0x08 ∷ 0x10 ∷ 0x00 ∷ 0x63 ∷ 0x04
    ∷ 0x00 ∷ 0x00 ∷ 0x13 ∷ 0x09 ∷ 0x10 ∷ 0x00 ∷ 0x93 ∷ 0x09 ∷ 0x10 ∷ 0x00 ∷ 0x63 ∷ 0x04 ∷ 0x0d
    ∷ 0x00 ∷ 0x13 ∷ 0x0a ∷ 0x10 ∷ 0x00 ∷ 0x93 ∷ 0x0a ∷ 0x10 ∷ 0x00 ∷ 0x63 ∷ 0x14 ∷ 0x00 ∷ 0x00
    ∷ 0x13 ∷ 0x0b ∷ 0x10 ∷ 0x00 ∷ 0x93 ∷ 0x0b ∷ 0x10 ∷ 0x00 ∷ 0x63 ∷ 0x14 ∷ 0x0d ∷ 0x00 ∷ 0x13
    ∷ 0x0c ∷ 0x10 ∷ 0x00 ∷ 0x93 ∷ 0x0c ∷ 0x10 ∷ 0x00 ∷ 0x6f ∷ 0x00 ∷ 0x00 ∷ 0x00 ∷ []

abbrev pub jmps_bin_len : ℕ
jmps_bin_len = 168
