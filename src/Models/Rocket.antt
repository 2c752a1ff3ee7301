-- ===== src/Models/Rocket.antt =====
-- The ports that the wrappers of rocket/ show to the driver (rocket/ports.def), in that order.
pub mod Arcilator
pub mod Verilator
use arc_tests.Prelude.{ℕ, List, [], ◌∷◌}
use arc_tests.Models.{View, AxiSignals, DebugSignals, from_bool}

-- `mem_axi4_0_b_ready` is left out, as there.
unfoldable pub ports : View → List ℕ
ports v =
    (from_bool v.clock)
    ∷ (from_bool v.reset)
    ∷ v.debug.clock
    ∷ v.debug.clockeddmi_dmi_req_bits_addr
    ∷ v.debug.clockeddmi_dmi_req_bits_data
    ∷ v.debug.clockeddmi_dmi_req_bits_op
    ∷ v.debug.clockeddmi_dmi_req_ready
    ∷ v.debug.clockeddmi_dmi_req_valid
    ∷ v.debug.clockeddmi_dmi_resp_bits_data
    ∷ v.debug.clockeddmi_dmi_resp_bits_resp
    ∷ v.debug.clockeddmi_dmi_resp_ready
    ∷ v.debug.clockeddmi_dmi_resp_valid
    ∷ v.debug.clockeddmi_dmi_clock
    ∷ v.debug.clockeddmi_dmi_reset
    ∷ v.debug.dmactive
    ∷ v.debug.dmactive_ack
    ∷ v.debug.ndreset
    ∷ v.debug.reset
    ∷ v.mem_axi4_0.ar_bits_addr
    ∷ v.mem_axi4_0.ar_bits_burst
    ∷ v.mem_axi4_0.ar_bits_cache
    ∷ v.mem_axi4_0.ar_bits_id
    ∷ v.mem_axi4_0.ar_bits_len
    ∷ v.mem_axi4_0.ar_bits_lock
    ∷ v.mem_axi4_0.ar_bits_prot
    ∷ v.mem_axi4_0.ar_bits_qos
    ∷ v.mem_axi4_0.ar_bits_size
    ∷ (from_bool v.mem_axi4_0.ar_ready)
    ∷ (from_bool v.mem_axi4_0.ar_valid)
    ∷ v.mem_axi4_0.aw_bits_addr
    ∷ v.mem_axi4_0.aw_bits_burst
    ∷ v.mem_axi4_0.aw_bits_cache
    ∷ v.mem_axi4_0.aw_bits_id
    ∷ v.mem_axi4_0.aw_bits_len
    ∷ v.mem_axi4_0.aw_bits_lock
    ∷ v.mem_axi4_0.aw_bits_prot
    ∷ v.mem_axi4_0.aw_bits_qos
    ∷ v.mem_axi4_0.aw_bits_size
    ∷ (from_bool v.mem_axi4_0.aw_ready)
    ∷ (from_bool v.mem_axi4_0.aw_valid)
    ∷ v.mem_axi4_0.b_bits_id
    ∷ v.mem_axi4_0.b_bits_resp
    ∷ (from_bool v.mem_axi4_0.b_valid)
    ∷ v.mem_axi4_0.r_bits_data
    ∷ v.mem_axi4_0.r_bits_id
    ∷ (from_bool v.mem_axi4_0.r_bits_last)
    ∷ v.mem_axi4_0.r_bits_resp
    ∷ (from_bool v.mem_axi4_0.r_ready)
    ∷ (from_bool v.mem_axi4_0.r_valid)
    ∷ v.mem_axi4_0.w_bits_data
    ∷ (from_bool v.mem_axi4_0.w_bits_last)
    ∷ v.mem_axi4_0.w_bits_strb
    ∷ (from_bool v.mem_axi4_0.w_ready)
    ∷ (from_bool v.mem_axi4_0.w_valid)
    ∷ v.mmio_axi4_0.ar_bits_addr
    ∷ v.mmio_axi4_0.ar_bits_burst
    ∷ v.mmio_axi4_0.ar_bits_cache
    ∷ v.mmio_axi4_0.ar_bits_id
    ∷ v.mmio_axi4_0.ar_bits_len
    ∷ v.mmio_axi4_0.ar_bits_lock
    ∷ v.mmio_axi4_0.ar_bits_prot
    ∷ v.mmio_axi4_0.ar_bits_qos
    ∷ v.mmio_axi4_0.ar_bits_size
    ∷ (from_bool v.mmio_axi4_0.ar_ready)
    ∷ (from_bool v.mmio_axi4_0.ar_valid)
    ∷ v.mmio_axi4_0.aw_bits_addr
    ∷ v.mmio_axi4_0.aw_bits_burst
    ∷ v.mmio_axi4_0.aw_bits_cache
    ∷ v.mmio_axi4_0.aw_bits_id
    ∷ v.mmio_axi4_0.aw_bits_len
    ∷ v.mmio_axi4_0.aw_bits_lock
    ∷ v.mmio_axi4_0.aw_bits_prot
    ∷ v.mmio_axi4_0.aw_bits_qos
    ∷ v.mmio_axi4_0.aw_bits_size
    ∷ (from_bool v.mmio_axi4_0.aw_ready)
    ∷ (from_bool v.mmio_axi4_0.aw_valid)
    ∷ v.mmio_axi4_0.b_bits_id
    ∷ v.mmio_axi4_0.b_bits_resp
    ∷ (from_bool v.mmio_axi4_0.b_ready)
    ∷ (from_bool v.mmio_axi4_0.b_valid)
    ∷ v.mmio_axi4_0.r_bits_data
    ∷ v.mmio_axi4_0.r_bits_id
    ∷ (from_bool v.mmio_axi4_0.r_bits_last)
    ∷ v.mmio_axi4_0.r_bits_resp
    ∷ (from_bool v.mmio_axi4_0.r_ready)
    ∷ (from_bool v.mmio_axi4_0.r_valid)
    ∷ v.mmio_axi4_0.w_bits_data
    ∷ (from_bool v.mmio_axi4_0.w_bits_last)
    ∷ v.mmio_axi4_0.w_bits_strb
    ∷ (from_bool v.mmio_axi4_0.w_ready)
    ∷ (from_bool v.mmio_axi4_0.w_valid)
    ∷ v.resetctrl_hart_is_in_reset_0
    ∷ []
