-- ===== src/Models.antt =====
-- What the wrappers of rocket/ and boom/ (…-model-arc.cpp, …-model-vtor.cpp) work on: the signals of a model that
-- Arcilator or Verilator generates, and its trace. Both tools generate one field for each port of the design; the
-- names are those of ports.def. Their types are as wide as the tool makes them: an assignment of a `size_t` is cut to that.
pub mod Rocket
pub mod Boom
pub mod Lockstep
pub mod Wiring
pub mod Contract
pub mod Tests
use arc_tests.Prelude.{ℕ, ◌%◌, ◌^◌, Bool, Option, none, some, List, [], ◌∷◌, ◌++◌, if◌then◌else◌}
use mathlib.Core.Option

-- The signals of one AXI port, `mem_axi4_0_…` or `mmio_axi4_0_…`.
pub record AxiSignals : Type 0 where
  pub aw_ready : Bool
  pub w_ready : Bool
  pub b_valid : Bool
  pub b_bits_id : ℕ
  pub b_bits_resp : ℕ
  pub ar_ready : Bool
  pub r_valid : Bool
  pub r_bits_id : ℕ
  pub r_bits_data : ℕ
  pub r_bits_resp : ℕ
  pub r_bits_last : Bool
  pub aw_valid : Bool
  pub aw_bits_id : ℕ
  pub aw_bits_addr : ℕ
  pub aw_bits_len : ℕ
  pub aw_bits_size : ℕ
  pub aw_bits_burst : ℕ
  pub aw_bits_lock : ℕ
  pub aw_bits_cache : ℕ
  pub aw_bits_prot : ℕ
  pub aw_bits_qos : ℕ
  pub w_valid : Bool
  pub w_bits_data : ℕ
  pub w_bits_strb : ℕ
  pub w_bits_last : Bool
  pub b_ready : Bool
  pub ar_valid : Bool
  pub ar_bits_id : ℕ
  pub ar_bits_addr : ℕ
  pub ar_bits_len : ℕ
  pub ar_bits_size : ℕ
  pub ar_bits_burst : ℕ
  pub ar_bits_lock : ℕ
  pub ar_bits_cache : ℕ
  pub ar_bits_prot : ℕ
  pub ar_bits_qos : ℕ
  pub r_ready : Bool

-- The signals `debug_…`.
pub record DebugSignals : Type 0 where
  pub clock : ℕ
  pub reset : ℕ
  pub clockeddmi_dmi_req_ready : ℕ
  pub clockeddmi_dmi_req_valid : ℕ
  pub clockeddmi_dmi_req_bits_addr : ℕ
  pub clockeddmi_dmi_req_bits_data : ℕ
  pub clockeddmi_dmi_req_bits_op : ℕ
  pub clockeddmi_dmi_resp_ready : ℕ
  pub clockeddmi_dmi_resp_valid : ℕ
  pub clockeddmi_dmi_resp_bits_data : ℕ
  pub clockeddmi_dmi_resp_bits_resp : ℕ
  pub clockeddmi_dmi_clock : ℕ
  pub clockeddmi_dmi_reset : ℕ
  pub ndreset : ℕ
  pub dmactive : ℕ
  pub dmactive_ack : ℕ

-- All signals of a design: `model.view` of Arcilator, the fields of the class of Verilator.
pub record View : Type 0 where
  pub clock : Bool
  pub reset : Bool
  pub debug : DebugSignals
  pub mem_axi4_0 : AxiSignals
  pub mmio_axi4_0 : AxiSignals
  pub resetctrl_hart_is_in_reset_0 : ℕ

-- A generated model: its signals, and the state `H` that it hides.
pub record Generated (H : Type 0) : Type 0 where
  pub view : View
  pub hidden : H

-- A trace that has been started: the file, and the samples written to it with their times.
pub record Trace : Type 0 where
  pub file : List ℕ
  pub samples : List (ℕ × View)

-- An object of one of the wrapper classes: `model` and `model_vcd`.
pub record Wrapped (H : Type 0) : Type 0 where
  pub model : Generated H
  pub model_vcd : Option Trace

-- The bits of the types of the fields that a `size_t` is assigned to.
pub record AxiWidths : Type 0 where
  pub b_bits_id : ℕ
  pub b_bits_resp : ℕ
  pub r_bits_id : ℕ
  pub r_bits_data : ℕ
  pub r_bits_resp : ℕ

pub record Widths : Type 0 where
  pub mem_axi4_0 : AxiWidths
  pub mmio_axi4_0 : AxiWidths

-- A number in a field of so many bits.
abbrev pub to_width : ℕ → ℕ → ℕ
to_width width x = x % 2 ^ width

-- An assignment to signals.
abbrev pub drive : {H : Type 0} → (View → View) → Wrapped H → Wrapped H
drive f m = record m { model = record m.model { view = f m.model.view } }

-- One more sample of the signals as they are.
abbrev pub sample : ℕ → View → Trace → Trace
sample time view t = record t { samples = t.samples ++ ((time, view) ∷ []) }

abbrev pub from_bool : Bool → ℕ
from_bool b = if b then 1 else 0
