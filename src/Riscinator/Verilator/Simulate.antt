-- ===== src/Riscinator/Verilator/Simulate.antt =====
-- `simulate` of riscinator/riscinator-verilator-main.cpp.
use arc_tests.Prelude.{
  ℕ, zero, suc, ◌/◌, ◌-◌, ◌*◌, ◌^◌, Bool, true, false, Option, none, some, ltb, ◌==◌, ◌&&◌,
  if◌then◌else◌, bit_and, bit_or, u32, sub64, ◌<<<◌,
}
use arc_tests.Riscinator.Simulate.{Bench, Step, next, stop, fault}
use arc_tests.Riscinator.Verilator.{VCore, clock}

-- A round of the loop of `be2mask`.
unfoldable pub enable : ℕ → ℕ → ℕ → ℕ
enable be i mask = if bit_and be (1 <<< i) == 0 then mask else bit_or mask (u32 (0xff <<< (i * 8)))

unfoldable pub be2mask : ℕ → ℕ
be2mask be = enable be 3 (enable be 2 (enable be 1 (enable be 0 0)))

unfoldable pub addr2idx : ℕ → ℕ → ℕ
addr2idx addr base = u32 (sub64 addr base / 4)

module _ {M : Type 0} (v : VCore M) where
  -- Up to the evaluation in front of the accesses.
  unfoldable pub present : Bench M → Bench M
  present b =
      let m =
        v.set_dmem b.dmem_rvalid b.dmem_rdata (v.set_imem b.imem_rvalid b.imem_rdata b.core) in
      record b {
        core = v.eval (v.set_dmem_gnt (v.dmem_req m) m);
        imem_rvalid = v.imem_req m;
        dmem_rvalid = v.dmem_req m;
      }

  -- `if (core.io_imem_req)`. `none` is a failed assertion.
  unfoldable pub instruction : ℕ → ℕ → Bench M → Option (Bench M)
  instruction len base b =
      if v.imem_req b.core
      then (let idx = addr2idx (v.imem_addr b.core) base in
          if ltb idx len then some (record b { imem_rdata = b.mem idx }) else none)
      else some b

  -- `(write & mask) | (~mask & mem[memidx])` at the index.
  unfoldable pub written : Bench M → ℕ → ℕ → ℕ
  written b idx i =
      let mask = be2mask (v.dmem_be b.core) in
      if i == idx
      then bit_or (bit_and (v.dmem_wdata b.core) mask) (bit_and (2 ^ 32 - 1 - mask) (b.mem idx))
      else b.mem i

  -- `if (core.io_dmem_req && core.io_dmem_we)`, and the other branch.
  unfoldable pub data_access : ℕ → ℕ → Bench M → Step M
  data_access len base b =
      let idx = addr2idx (v.dmem_addr b.core) base in
      if v.dmem_req b.core && v.dmem_we b.core
      then (if v.dmem_addr b.core == 0xffff00
          then stop (record b { finished = true })
          else if ltb idx len
          then next (record b { mem = written b idx })
          else fault)
      else if v.dmem_req b.core
      then (if ltb idx len then next (record b { dmem_rdata = b.mem idx }) else fault)
      else next b

  unfoldable pub round : ℕ → ℕ → Bench M → Step M
  round len base b = elim (instruction len base (present b)) [
    | none ↦ fault
    | some b₁ ↦ elim (data_access len base b₁) [
      | next b₂ ↦ next (record b₂ { core = clock v b₂.core })
      | stop b₂ ↦ stop b₂
      | fault ↦ fault
    ]
  ]

  -- The loop, with the rounds that are left.
  unfoldable pub rounds : ℕ → ℕ → ℕ → Bench M → Option (Bench M)
  rounds zero len base b = some b
  rounds (suc left) len base b = elim (round len base b) [
    | next b₁ ↦ rounds left len base b₁
    | stop b₁ ↦ some b₁
    | fault ↦ none
  ]

  unfoldable pub simulate : ℕ → ℕ → ℕ → Bool → M → (ℕ → ℕ) → Option (Bench M)
  simulate max_cycles len base finished core mem = rounds max_cycles len base (record {
    core = v.eval (v.set_reset false (clock v (v.set_reset true core)));
    mem = mem;
    imem_rdata = 0;
    imem_rvalid = false;
    dmem_rdata = 0;
    dmem_rvalid = false;
    finished = finished;
  })
