-- ===== src/Axi.antt =====
-- The AXI signals of one port of a design, and the port of the test driver that answers them
-- (rocket/rocket-model.h, and `AxiPort` of rocket/rocket-main.cpp).
pub mod Port
pub mod Burst
pub mod Cycle
pub mod Reads
pub mod Writes
pub mod Valid
pub mod Conserve
pub mod Stores
pub mod Widths
pub mod Tests
use arc_tests.Prelude.{ℕ, Bool}

-- AXI signals going into the design.
pub record AxiInputs : Type 0 where
  pub aw_ready : Bool
  pub w_ready : Bool
  pub b_valid : Bool
  pub b_id : ℕ
  pub b_resp : ℕ
  pub ar_ready : Bool
  pub r_valid : Bool
  pub r_id : ℕ
  pub r_data : ℕ
  pub r_resp : ℕ
  pub r_last : Bool

-- AXI signals coming out of the design.
pub record AxiOutputs : Type 0 where
  pub aw_valid : Bool
  pub aw_id : ℕ
  pub aw_addr : ℕ
  pub aw_len : ℕ
  pub aw_size : ℕ
  pub w_valid : Bool
  pub w_data : ℕ
  pub w_strb : ℕ
  pub w_last : Bool
  pub b_ready : Bool
  pub ar_valid : Bool
  pub ar_id : ℕ
  pub ar_addr : ℕ
  pub ar_len : ℕ
  pub ar_size : ℕ
  pub r_ready : Bool
