-- ===== src/Driver/Widths/Tests.antt =====
-- A program of one byte, and the first round of a design that reads two words.
use arc_tests.Prelude.{ℕ, ◌+◌, ◌≡◌, refl, true, false, some, List, [], ◌∷◌, arith}
use arc_tests.Axi.{AxiOutputs}
use arc_tests.Axi.Port.{
  no_inputs, no_outputs, idle, update_a, update_b, present_ack, present_read, handle_write,
  accept_write, accept_read, present_ready,
}
use arc_tests.Host.Loader.{Segment, AllFit, load, load_segment, fill}
use arc_tests.Host.Memory.{Memory, store_byte}
use arc_tests.Driver.{Design}
use arc_tests.Driver.Compare.{
  compare_ports, each, clock, mismatches, differing_models, first_mem, first_mmio, reset_rounds,
}
use arc_tests.Driver.Loop.{Sim, go_on, round, feed, drain, judge, start}
use arc_tests.Driver.Main.{empty_memory}
use arc_tests.Driver.Widths.{HasWidths, IsTyped, here, next, start-IsTyped}

-- The request of a burst of two words.
abbrev request : AxiOutputs
request = record no_outputs { ar_valid = true; ar_addr = 0x80000000; ar_len = 1; ar_size = 3 }

abbrev reader : Design ℕ
reader = record {
  name = λ m. [];
  vcd_start = λ file m. m;
  vcd_dump = λ cycle m. m;
  eval = λ m. m + 1;
  get_ports = λ m. m ∷ [];
  set_clock = λ b m. m;
  set_reset = λ b m. m;
  set_mem = λ i m. m;
  get_mem = λ m. request;
  set_mmio = λ i m. m;
  get_mmio = λ m. no_outputs;
}

request-HasWidths : HasWidths request
request-HasWidths = record {
  lengths = record { ar_len = omega arith; aw_len = omega arith };
  data_word = omega arith;
}

no_outputs-HasWidths : HasWidths no_outputs
no_outputs-HasWidths = record {
  lengths = record { ar_len = omega arith; aw_len = omega arith };
  data_word = omega arith;
}

abbrev one_byte : List Segment
one_byte =
    record {
      kind = 1;
      physical_address = 0x80000000;
      memory_size = 1;
      file_size = 1;
      bytes = λ i. 0x13;
    }
    ∷ []

one_byte-AllFit : AllFit one_byte
one_byte-AllFit =
    (record { counted = omega arith; placed = omega arith; are_bytes = λ i. omega arith }, tt)

abbrev loaded : Memory
loaded = store_byte empty_memory 0x80000000 0x13

loads : load empty_memory one_byte ≡ some loaded
unfolding load load_segment fill
loads = refl

-- The simulation after its first round: the burst is accepted.
abbrev accepted : Sim ℕ
accepted = record {
  model = record { models = 2003 ∷ []; cycle = 1001; num_mismatches = 0 };
  mem = record idle {
    inputs = record no_inputs { aw_ready = true; ar_ready = true };
    outputs = request;
    read_beats_left = 2;
    read_addr = 0x80000000;
    read_size = 3;
  };
  mmio = record idle { inputs = record no_inputs { aw_ready = true; ar_ready = true } };
  host = record { memory = loaded; finished = false; console = [] };
  num_bad_cycles = 0;
}

accepts :
    round reader
      (start reader (0 ∷ []) (record { memory = loaded; finished = false; console = [] }))
    ≡ go_on accepted
unfolding round feed drain judge clock compare_ports each mismatches differing_models first_mem
    first_mmio reset_rounds start update_a update_b present_ack present_read handle_write
    accept_write accept_read present_ready
accepts = refl

start-IsTyped_example : IsTyped accepted
start-IsTyped_example =
    start-IsTyped reader (λ m. request-HasWidths) (λ m. no_outputs-HasWidths) one_byte loaded
      (0 ∷ []) accepted one_byte-AllFit loads (next accepts here)
