-- ===== src/Driver/Aborts/Tests.antt =====
-- A design that stores half a word.
use arc_tests.Prelude.{ℕ, suc, ◌≡◌, ◌↔◌, refl, true, false, none, [], ◌∷◌}
use arc_tests.Axi.{AxiOutputs}
use arc_tests.Axi.Port.{
  no_outputs, idle, update_a, update_b, present_ack, present_read, handle_write, store, lane_mask,
  accept_write, accept_read, present_ready,
}
use arc_tests.Host.Device.{mem_write}
use arc_tests.Driver.{Design}
use arc_tests.Driver.Compare.{
  compare_ports, each, clock, mismatches, differing_models, first_mem, first_mmio,
}
use arc_tests.Driver.Loop.{Sim, aborted, simulate, round, feed, drain, judge}
use arc_tests.Driver.Widths.{Reaches}
use arc_tests.Driver.Aborts.{ShowsBadBeat, aborted_iff}

abbrev half : AxiOutputs
half = record no_outputs {
  aw_valid = true;
  aw_addr = 0x80000000;
  aw_size = 3;
  w_valid = true;
  w_strb = 0x0f;
  w_last = true;
}

abbrev careless : Design ℕ
careless = record {
  name = λ m. [];
  vcd_start = λ file m. m;
  vcd_dump = λ cycle m. m;
  eval = suc;
  get_ports = λ m. m ∷ [];
  set_clock = λ b m. m;
  set_reset = λ b m. m;
  set_mem = λ i m. m;
  get_mem = λ m. half;
  set_mmio = λ i m. m;
  get_mmio = λ m. no_outputs;
}

abbrev fresh : Sim ℕ
fresh = record {
  model = record { models = 0 ∷ []; cycle = 0; num_mismatches = 0 };
  mem = idle;
  mmio = idle;
  host = record { memory = λ key. none; finished = false; console = [] };
  num_bad_cycles = 0;
}

-- The first round accepts the burst, the second one its beat.
fresh-aborted : simulate careless 2 fresh ≡ aborted
unfolding simulate round feed drain judge clock compare_ports each mismatches differing_models
    first_mem first_mmio update_a update_b present_ack present_read handle_write store lane_mask
    accept_write accept_read present_ready mem_write
fresh-aborted = refl

aborted_iff_example :
    ((left : ℕ) × (simulate careless left fresh ≡ aborted))
    ↔ ((t : Sim ℕ) × Reaches careless fresh t × ShowsBadBeat careless t)
aborted_iff_example = aborted_iff careless fresh
