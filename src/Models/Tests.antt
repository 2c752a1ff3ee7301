-- ===== src/Models/Tests.antt =====
-- Generated models that only hold their signals, and the theorems at such models.
use arc_tests.Prelude.{
  ℕ, suc, ◌≡◌, ◌≢◌, ◌⊎◌, refl, ap, false, none, some, Option, List, [], ◌∷◌, codes,
}
use arc_tests.Host.Loader.{Segment}
use arc_tests.Driver.Args.{Text}
use arc_tests.Driver.Exits.{IsRefused}
use arc_tests.Driver.Loop.{returned}
use arc_tests.Driver.Main as RocketMain
use arc_tests.Boom.Main as BoomMain
use arc_tests.Models.{AxiWidths, Widths, AxiSignals, DebugSignals, View, Generated, Wrapped}
use arc_tests.Models.Rocket.Arcilator as RocketArcilator
use arc_tests.Models.Rocket.Verilator as RocketVerilator
use arc_tests.Models.Boom.Arcilator as BoomArcilator
use arc_tests.Models.Boom.Verilator as BoomVerilator
use arc_tests.Models.Lockstep.{SameCircuit, assigned, mains-ne-one}

abbrev quiet : AxiSignals
quiet = record {
  aw_ready = false;
  w_ready = false;
  b_valid = false;
  b_bits_id = 0;
  b_bits_resp = 0;
  ar_ready = false;
  r_valid = false;
  r_bits_id = 0;
  r_bits_data = 0;
  r_bits_resp = 0;
  r_bits_last = false;
  aw_valid = false;
  aw_bits_id = 0;
  aw_bits_addr = 0;
  aw_bits_len = 0;
  aw_bits_size = 0;
  aw_bits_burst = 0;
  aw_bits_lock = 0;
  aw_bits_cache = 0;
  aw_bits_prot = 0;
  aw_bits_qos = 0;
  w_valid = false;
  w_bits_data = 0;
  w_bits_strb = 0;
  w_bits_last = false;
  b_ready = false;
  ar_valid = false;
  ar_bits_id = 0;
  ar_bits_addr = 0;
  ar_bits_len = 0;
  ar_bits_size = 0;
  ar_bits_burst = 0;
  ar_bits_lock = 0;
  ar_bits_cache = 0;
  ar_bits_prot = 0;
  ar_bits_qos = 0;
  r_ready = false;
}

abbrev no_debug : DebugSignals
no_debug = record {
  clock = 0;
  reset = 0;
  clockeddmi_dmi_req_ready = 0;
  clockeddmi_dmi_req_valid = 0;
  clockeddmi_dmi_req_bits_addr = 0;
  clockeddmi_dmi_req_bits_data = 0;
  clockeddmi_dmi_req_bits_op = 0;
  clockeddmi_dmi_resp_ready = 0;
  clockeddmi_dmi_resp_valid = 0;
  clockeddmi_dmi_resp_bits_data = 0;
  clockeddmi_dmi_resp_bits_resp = 0;
  clockeddmi_dmi_clock = 0;
  clockeddmi_dmi_reset = 0;
  ndreset = 0;
  dmactive = 0;
  dmactive_ack = 0;
}

abbrev dark : View
dark = record {
  clock = false;
  reset = false;
  debug = no_debug;
  mem_axi4_0 = quiet;
  mmio_axi4_0 = quiet;
  resetctrl_hart_is_in_reset_0 = 0;
}

-- Identifiers and responses in bytes, and data in words of 64 bits.
abbrev axi_widths : AxiWidths
axi_widths = record {
  b_bits_id = 8;
  b_bits_resp = 8;
  r_bits_id = 8;
  r_bits_data = 64;
  r_bits_resp = 8;
}

abbrev narrow : Widths
narrow = record { mem_axi4_0 = axi_widths; mmio_axi4_0 = axi_widths }

-- One model hides nothing, the other a count of its evaluations.
abbrev still : Generated (Unit {0}) → Generated (Unit {0})
still g = g

abbrev counting : Generated ℕ → Generated ℕ
counting g = record g { hidden = suc g.hidden }

abbrev SameView : Generated (Unit {0}) → Generated ℕ → Type 0
SameView x y = x.view ≡ y.view

still-SameCircuit : SameCircuit narrow still counting SameView
still-SameCircuit = record {
  views = λ x y e. e;
  eval = λ x y e. e;
  drive = λ a x y e. ap (assigned narrow a) e;
}

abbrev fresh_vtor : Wrapped (Unit {0})
fresh_vtor = record { model = record { view = dark; hidden = tt }; model_vcd = none }

abbrev fresh_arcs : Wrapped ℕ
fresh_arcs = record { model = record { view = dark; hidden = 0 }; model_vcd = none }

-- Files with nothing to load.
abbrev empty_files : Text → Option (List Segment)
empty_files file = some []

abbrev command : List Text
command = codes "dhrystone" ∷ []

mains-ne-one_example :
    IsRefused empty_files command
    ⊎ ((RocketMain.main
            (RocketVerilator.wrapper narrow still)
            (RocketArcilator.wrapper narrow counting)
            fresh_vtor
            fresh_arcs
            empty_files
            command
          ≢ some (returned 1))
        × (BoomMain.main
              (BoomVerilator.wrapper narrow still)
              (BoomArcilator.wrapper narrow counting)
              fresh_vtor
              fresh_arcs
              empty_files
              command
            ≢ some (returned 1)))
mains-ne-one_example =
    mains-ne-one narrow still counting SameView still-SameCircuit fresh_vtor fresh_arcs empty_files
      command refl
