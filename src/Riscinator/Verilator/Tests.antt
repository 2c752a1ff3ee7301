-- ===== src/Riscinator/Verilator/Tests.antt =====
-- A Verilator core that plays a script, and the theorems at its run.
use arc_tests.Prelude.{
  arith, ℕ, suc, ◌≡◌, ◌≢◌, refl, Bool, true, false, some, [], ◌∷◌, codes, leb, if◌then◌else◌,
}
use arc_tests.Riscinator.Words.{mem_base}
use arc_tests.Riscinator.Image.{word_at, itype_bin, jmps_bin}
use arc_tests.Riscinator.Simulate as Arcilator
use arc_tests.Riscinator.Verilator.{VCore}
use arc_tests.Riscinator.Verilator.Simulate.{simulate}
use arc_tests.Riscinator.Verilator.Same.{core_of, simulate_same}
use arc_tests.Riscinator.Verilator.Check.{main}
use arc_tests.Riscinator.Verilator.Never.{main-ne-zero}

-- The clock as it is and as it was at the last evaluation, and the edges that an evaluation has seen.
record State : Type 0 where
  clk : Bool
  seen : Bool
  edges : ℕ

abbrev settle : State → State
settle s = record s {
  seen = s.clk;
  edges = if s.clk then (if s.seen then s.edges else suc s.edges) else s.edges;
}

-- It fetches always, and writes to the address that ends the simulation behind three edges.
abbrev script : VCore State
script = record {
  eval = settle;
  set_clock = λ b s. record s { clk = b };
  set_reset = λ b s. s;
  set_imem = λ valid word s. s;
  set_dmem = λ valid word s. s;
  set_dmem_gnt = λ b s. s;
  imem_req = λ s. true;
  imem_addr = λ s. 0x100000;
  dmem_req = λ s. leb 3 s.edges;
  dmem_we = λ s. true;
  dmem_be = λ s. 15;
  dmem_addr = λ s. 0xffff00;
  dmem_wdata = λ s. 7;
  reg = λ s i. s.edges;
}

settle_twice : (s : State) → settle (settle s) ≡ settle s
settle_twice s = ground arith

abbrev new : State
new = record { clk = false; seen = false; edges = 0 }

abbrev ones : ℕ → ℕ
ones i = 0xffffffff

-- The first instructions of the two programs.
first_words : (word_at itype_bin 0 ≡ 0x03f00093) × (word_at jmps_bin 41 ≡ 0x0000006f)
unfolding word_at
first_words = (refl, refl)

simulate_same_example :
    simulate script 10 4 mem_base false new ones
    ≡ Arcilator.simulate (core_of script) 10 4 mem_base false new ones
simulate_same_example = simulate_same script settle_twice 10 4 mem_base false new ones

main-ne-zero_example :
    (main script new [] 0 [] ≢ some 0)
    × (main script new [] 0 (codes "itype" ∷ []) ≢ some 0)
    × (main script new [] 0 (codes "jmps" ∷ []) ≢ some 0)
main-ne-zero_example = main-ne-zero script new [] 0
