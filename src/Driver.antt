-- ===== src/Driver.antt =====
-- The driver's main program: the models that run in lockstep, and the loop that feeds them
-- (rocket/rocket-main.cpp, rocket/rocket-model.h).
pub mod Compare
pub mod Loop
pub mod Dispatch
pub mod Args
pub mod Trace
pub mod Main
pub mod Exits
pub mod Lockstep
pub mod Mismatch
pub mod Widths
pub mod Aborts
pub mod Tests
use arc_tests.Prelude.{ℕ, Bool, List}
use arc_tests.Axi.{AxiInputs, AxiOutputs}

-- `RocketModel`: what the driver can do with a simulated design. The two implementations wrap code that
-- Arcilator and Verilator generate; `M` is the state of a model. Texts are lists of character codes.
pub record Design (M : Type 0) : Type 0 where
  pub name : M → List ℕ
  pub vcd_start : List ℕ → M → M
  pub vcd_dump : ℕ → M → M
  pub eval : M → M
  pub get_ports : M → List ℕ
  pub set_clock : Bool → M → M
  pub set_reset : Bool → M → M
  pub set_mem : AxiInputs → M → M
  pub get_mem : M → AxiOutputs
  pub set_mmio : AxiInputs → M → M
  pub get_mmio : M → AxiOutputs
