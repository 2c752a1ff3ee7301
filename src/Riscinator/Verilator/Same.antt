-- ===== src/Riscinator/Verilator/Same.antt =====
-- The loop of riscinator/riscinator-verilator-main.cpp beside that of riscinator/riscinator-main.cpp.
use arc_tests.Prelude.{ℕ, zero, suc, ◌≡◌, refl, arith, Bool, true, false, Option-cases, inl, inr}
use arc_tests.Riscinator.{Core}
use arc_tests.Riscinator.Words as Words
use arc_tests.Riscinator.Words.{mask_from, merge}
use arc_tests.Riscinator.Memory.{Step-cases}
use arc_tests.Riscinator.Simulate as Arcilator
use arc_tests.Riscinator.Simulate.{
  Bench, Step, next, stop, fault, answer, fetch_instruction, write_word, access, cycle, cycles,
}
use arc_tests.Riscinator.Verilator.{VCore, clock}
use arc_tests.Riscinator.Verilator.Simulate.{
  enable, be2mask, addr2idx, present, instruction, written, data_access, round, rounds, simulate,
}

-- The core as the other driver would see it.
abbrev pub core_of : {M : Type 0} → VCore M → Core M
core_of v = record {
  clock = clock v;
  passthrough = v.eval;
  set_reset = v.set_reset;
  set_imem = v.set_imem;
  set_dmem = v.set_dmem;
  set_dmem_gnt = v.set_dmem_gnt;
  imem_req = v.imem_req;
  imem_addr = v.imem_addr;
  dmem_req = v.dmem_req;
  dmem_we = v.dmem_we;
  dmem_be = v.dmem_be;
  dmem_addr = v.dmem_addr;
  dmem_wdata = v.dmem_wdata;
  reg = v.reg;
}

be2mask_same : (be : ℕ) → be2mask be ≡ Words.be2mask be
unfolding be2mask enable Words.be2mask mask_from
be2mask_same be = refl

module _ {M : Type 0} (v : VCore M) (settles : (m : M) → v.eval (v.eval m) ≡ v.eval m) where
  data_access_same :
      (len base : ℕ) (b : Bench M) → data_access v len base b ≡ access (core_of v) len base b
  unfolding data_access access written write_word merge be2mask enable Words.be2mask mask_from
      addr2idx Words.addr2idx
  data_access_same len base b = refl

  instruction_same :
      (len base : ℕ) (b : Bench M)
      → instruction v len base (present v b)
        ≡ fetch_instruction (core_of v) len base (answer (core_of v) b)
  unfolding instruction fetch_instruction present answer addr2idx Words.addr2idx
  instruction_same len base b = refl

  round_same : (len base : ℕ) (b : Bench M) → round v len base b ≡ cycle (core_of v) len base b
  unfolding round cycle
  round_same len base b =
      elim (Option-cases (fetch_instruction (core_of v) len base (answer (core_of v) b))) [
        | inl failed ↦ ground (arith, failed, instruction_same len base b)
        | inr (b₁, one) ↦ elim (Step-cases (core_of v) len base (access (core_of v) len base b₁)) [
          | inl (b₂, two) ↦
              let settled = settles (v.set_clock true (v.eval (v.set_clock false b₂.core))) in
              ground (
                arith,
                one,
                two,
                instruction_same len base b,
                data_access_same len base b₁,
                settled,
              )
          | inr (inl (b₂, two)) ↦
              ground (arith, one, two, instruction_same len base b, data_access_same len base b₁)
          | inr (inr two) ↦
              ground (arith, one, two, instruction_same len base b, data_access_same len base b₁)
        ]
      ]

  rounds_same :
      (left len base : ℕ) (b : Bench M)
      → rounds v left len base b ≡ cycles (core_of v) left len base b
  unfolding rounds cycles
  rounds_same zero len base b = refl
  rounds_same (suc left) len base b =
      elim (Step-cases (core_of v) len base (cycle (core_of v) len base b)) [
        | inl (b₁, one) ↦ ground (arith, one, round_same len base b, rounds_same left len base b₁)
        | inr (inl (b₁, one)) ↦ ground (arith, one, round_same len base b)
        | inr (inr one) ↦ ground (arith, one, round_same len base b)
      ]

  -- Where a second evaluation changes nothing, the simulation of a Verilator core runs as the one of
  -- riscinator/riscinator-main.cpp does on the same core, with `eval` for `passthrough`: to the same core, memory,
  -- answers and `finished`, or to a failed assertion.
  pub simulate_same :
      (max_cycles len base : ℕ) (finished : Bool) (core : M) (mem : ℕ → ℕ)
      → simulate v max_cycles len base finished core mem
        ≡ Arcilator.simulate (core_of v) max_cycles len base finished core mem
  unfolding simulate Arcilator.simulate
  simulate_same max_cycles len base finished core mem =
      rw (settles (v.set_clock true (v.eval (v.set_clock false (v.set_reset true core)))))
        (rounds_same max_cycles len base _)
