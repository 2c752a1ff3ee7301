-- ===== src/Riscinator/Simulate.antt =====
-- `simulate` of riscinator/riscinator-main.cpp.
use arc_tests.Prelude.{
  ℕ, zero, suc, Bool, true, false, Option, none, some, ltb, ◌==◌, ◌&&◌, if◌then◌else◌,
}
use arc_tests.Riscinator.{Core}
use arc_tests.Riscinator.Words.{be2mask, addr2idx, merge}

-- The variables of the loop; the memory is an array of `len` words. `rdata` and `rvalid` are what the next cycle
-- answers.
pub record Bench (M : Type 0) : Type 0 where
  pub core : M
  pub mem : ℕ → ℕ
  pub imem_rdata : ℕ
  pub imem_rvalid : Bool
  pub dmem_rdata : ℕ
  pub dmem_rvalid : Bool
  pub finished : Bool

-- The address whose write ends the simulation.
abbrev pub finish_addr : ℕ
finish_addr = 0xffff00

-- What a cycle of the loop comes to: the next cycle, a `break`, or a failed assertion.
pub data Step (M : Type 0) : Type 0 where
  next : Bench M → Step M
  stop : Bench M → Step M
  fault : Step M

module _ {M : Type 0} (c : Core M) where
  -- The answers to the last cycle, the grant, and the evaluation.
  unfoldable pub answer : Bench M → Bench M
  answer b =
      let m₁ = c.set_imem b.imem_rvalid b.imem_rdata b.core in
      let m₂ = c.set_dmem b.dmem_rvalid b.dmem_rdata m₁ in
      let m₃ = c.passthrough (c.set_dmem_gnt (c.dmem_req m₂) m₂) in
      record b { core = m₃; imem_rvalid = c.imem_req m₂; dmem_rvalid = c.dmem_req m₂ }

  -- `if (core.io_imem_req)`.
  unfoldable pub fetch_instruction : ℕ → ℕ → Bench M → Option (Bench M)
  fetch_instruction len base b =
      let idx = addr2idx (c.imem_addr b.core) base in
      if c.imem_req b.core
      then (if ltb idx len then some (record b { imem_rdata = b.mem idx }) else none)
      else some b

  -- The memory behind a write with byte enables.
  unfoldable pub write_word : ℕ → ℕ → ℕ → (ℕ → ℕ) → ℕ → ℕ
  write_word idx word be mem i = if i == idx then merge word (be2mask be) (mem idx) else mem i

  -- The access of the data port.
  unfoldable pub access : ℕ → ℕ → Bench M → Step M
  access len base b =
      let idx = addr2idx (c.dmem_addr b.core) base in
      if c.dmem_req b.core && c.dmem_we b.core
      then (if c.dmem_addr b.core == finish_addr
          then stop (record b { finished = true })
          else if ltb idx len
          then next
              (record b { mem = write_word idx (c.dmem_wdata b.core) (c.dmem_be b.core) b.mem })
          else fault)
      else if c.dmem_req b.core
      then (if ltb idx len then next (record b { dmem_rdata = b.mem idx }) else fault)
      else next b

  -- One round of the loop.
  unfoldable pub cycle : ℕ → ℕ → Bench M → Step M
  cycle len base b = elim (fetch_instruction len base (answer b)) [
    | none ↦ fault
    | some b₁ ↦ elim (access len base b₁) [
      | next b₂ ↦ next (record b₂ { core = c.passthrough (c.clock b₂.core) })
      | stop b₂ ↦ stop b₂
      | fault ↦ fault
    ]
  ]

  -- The loop, with the cycles that are left. `none` is a failed assertion.
  unfoldable pub cycles : ℕ → ℕ → ℕ → Bench M → Option (Bench M)
  cycles zero len base b = some b
  cycles (suc left) len base b = elim (cycle len base b) [
    | next b₁ ↦ cycles left len base b₁
    | stop b₁ ↦ some b₁
    | fault ↦ none
  ]

  -- `simulate`, on a core and a memory; `finished` is a global that it sets at most.
  unfoldable pub simulate : ℕ → ℕ → ℕ → Bool → M → (ℕ → ℕ) → Option (Bench M)
  simulate max_cycles len base finished core mem =
      let reset = c.passthrough (c.clock (c.set_reset true core)) in
      let started = c.passthrough (c.set_reset false reset) in
      cycles max_cycles len base (record {
        core = started;
        mem = mem;
        imem_rdata = 0;
        imem_rvalid = false;
        dmem_rdata = 0;
        dmem_rvalid = false;
        finished = finished;
      })
