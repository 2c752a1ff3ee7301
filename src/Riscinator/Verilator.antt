-- ===== src/Riscinator/Verilator.antt =====
-- The driver of the Riscinator core on Verilator (riscinator/riscinator-verilator-main.cpp).
pub mod Simulate
pub mod Check
pub mod Same
pub mod Never
pub mod Tests
use arc_tests.Prelude.{ℕ, Bool, true, false}

-- The class `VCore` that Verilator generates: `eval()`, and the members that the driver uses. `M` is the state of an
-- object, and `reg` reads the registers in the root of the design.
pub record VCore (M : Type 0) : Type 0 where
  pub eval : M → M
  pub set_clock : Bool → M → M
  pub set_reset : Bool → M → M
  pub set_imem : Bool → ℕ → M → M
  pub set_dmem : Bool → ℕ → M → M
  pub set_dmem_gnt : Bool → M → M
  pub imem_req : M → Bool
  pub imem_addr : M → ℕ
  pub dmem_req : M → Bool
  pub dmem_we : M → Bool
  pub dmem_be : M → ℕ
  pub dmem_addr : M → ℕ
  pub dmem_wdata : M → ℕ
  pub reg : M → ℕ → ℕ

-- `clock(core)`.
abbrev pub clock : {M : Type 0} → VCore M → M → M
clock v m = v.eval (v.set_clock true (v.eval (v.set_clock false m)))
