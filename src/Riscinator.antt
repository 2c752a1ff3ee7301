-- ===== src/Riscinator.antt =====
-- The driver of the Riscinator core (riscinator/riscinator-main.cpp): the core's ports, and a memory of 32-bit
-- words behind them.
pub mod Words
pub mod Simulate
pub mod Bytes
pub mod Check
pub mod Memory
pub mod Image
pub mod Main
pub mod Exit
pub mod Verilator
pub mod Tests
use arc_tests.Prelude.{ℕ, Bool}

-- The core that Arcilator generates: `model.clock()`, `model.passthrough()`, and the signals of `model.view` that
-- the driver uses. `M` is the state of the model.
pub record Core (M : Type 0) : Type 0 where
  pub clock : M → M
  pub passthrough : M → M
  pub set_reset : Bool → M → M
  pub set_imem : Bool → ℕ → M → M
  pub set_dmem : Bool → ℕ → M → M
  pub set_dmem_gnt : Bool → M → M
  pub imem_req : M → Bool
  pub imem_addr : M → ℕ
  pub dmem_req : M → Bool
  pub dmem_we : M → Bool
  pub dmem_be : M → ℕ
  pub dmem_addr : M → ℕ
  pub dmem_wdata : M → ℕ
  pub reg : M → ℕ → ℕ
