-- ===== src/Riscinator/Tests.antt =====
-- A core that plays a script, and the theorems at its run.
use arc_tests.Prelude.{
  ℕ, suc, ◌≡◌, ◌↔◌, refl, true, false, Option, none, some, [], arith, ◌==◌, leb, if◌then◌else◌,
}
use arc_tests.Riscinator.{Core}
use arc_tests.Riscinator.Words.{addr2idx, be2mask, mask_from, merge, mem_base}
use arc_tests.Riscinator.Simulate.{
  Bench, answer, fetch_instruction, write_word, access, cycle, cycles, simulate,
}
use arc_tests.Riscinator.Bytes.{word_byte, bit_of, word_byte-merge}
use arc_tests.Riscinator.Check.{itype_check, jmps_check}
use arc_tests.Riscinator.Image.{word_at, itype_bin, jmps_bin}
use arc_tests.Riscinator.Main.{main}
use arc_tests.Riscinator.Exit.{Passes, Finishes, main-eq-zero_iff}
use arc_tests.Riscinator.Memory.{simulate-Keeps}

-- Its state counts the clocks. It fetches always, writes two bytes behind two clocks, and ends behind three.
abbrev script : Core ℕ
script = record {
  clock = suc;
  passthrough = λ m. m;
  set_reset = λ b m. m;
  set_imem = λ valid word m. m;
  set_dmem = λ valid word m. m;
  set_dmem_gnt = λ b m. m;
  imem_req = λ m. true;
  imem_addr = λ m. 0x100000;
  dmem_req = λ m. leb 2 m;
  dmem_we = λ m. true;
  dmem_be = λ m. 3;
  dmem_addr = λ m. if leb 3 m then 0xffff00 else 0x100004;
  dmem_wdata = λ m. 0x11223344;
  reg = λ m i. m;
}

abbrev ones : ℕ → ℕ
ones i = 0xffffffff

abbrev bench : Option (Bench ℕ) → ℕ → ℕ
bench none i = 0
bench (some b) i = b.mem i

script_writes : bench (simulate script 10 4 mem_base false 0 ones) 1 ≡ 0xffff3344
unfolding simulate cycles cycle answer fetch_instruction access write_word merge be2mask mask_from
    addr2idx
script_writes = refl

-- The state that the script ends in.
abbrev last : Bench ℕ
last = record {
  core = 3;
  mem = write_word script 1 0x11223344 3 ones;
  imem_rdata = 0xffffffff;
  imem_rvalid = true;
  dmem_rdata = 0;
  dmem_rvalid = true;
  finished = true;
}

script_ends : simulate script 10 4 mem_base false 0 ones ≡ some last
unfolding simulate cycles cycle answer fetch_instruction access addr2idx write_word
script_ends = refl

simulate-Keeps_example : last.mem 4 ≡ ones 4
simulate-Keeps_example =
    simulate-Keeps script 4 mem_base 10 false 0 ones last script_ends 4 (omega arith)

word_byte-merge_example :
    word_byte (merge 0x11223344 (be2mask 3) 0xffffffff) 1
    ≡ (if bit_of 3 1 == 1 then word_byte 0x11223344 1 else word_byte 0xffffffff 1)
word_byte-merge_example =
    word_byte-merge 0x11223344 3 0xffffffff 1 (omega arith) (omega arith) (omega arith)
      (omega arith)

main-eq-zero_iff_example : (main script 0 [] 0 [] ≡ some 0) ↔ (
    Passes script itype_check 16 (word_at itype_bin) 0
    × Passes script jmps_check 42 (word_at jmps_bin) 0
    × Finishes script 0 (word_at []) 0)
main-eq-zero_iff_example = main-eq-zero_iff script 0 [] 0
