-- ===== src/Driver/Tests.antt =====
-- Runs of the driver's loop, and the theorems at such runs.
use arc_tests.Prelude.{ℕ, ◌+◌, ◌≡◌, ◌≢◌, refl, ap, false, none, [], ◌∷◌, arith, if◌then◌else◌}
use arc_tests.Axi.Port.{
  no_outputs, idle, update_a, update_b, present_ack, present_read, handle_write, accept_write,
  accept_read, present_ready,
}
use arc_tests.Host.Device.{Host}
use arc_tests.Driver.{Design}
use arc_tests.Driver.Compare.{
  compare_ports, each, clock, mismatches, differing, differing_models, first_mem, first_mmio,
}
use arc_tests.Driver.Loop.{Sim, returned, simulate, start, round, feed, drain, judge}
use arc_tests.Driver.Lockstep.{IsAgreement, simulate-start}
use arc_tests.Driver.Mismatch.{Ends, simulate-Ends}

-- A design that counts the edges of its clock and shows the count on its one port.
abbrev counter : Design ℕ
counter = record {
  name = λ m. [];
  vcd_start = λ file m. m;
  vcd_dump = λ cycle m. m;
  eval = λ m. m;
  get_ports = λ m. m ∷ [];
  set_clock = λ b m. if b then m + 1 else m;
  set_reset = λ b m. if b then 0 else m;
  set_mem = λ i m. m;
  get_mem = λ m. no_outputs;
  set_mmio = λ i m. m;
  get_mmio = λ m. no_outputs;
}

abbrev blank : Host
blank = record { memory = λ a. none; finished = false; console = [] }

-- Two counters that started apart, with one mismatch counted.
abbrev apart : Sim ℕ
apart = record {
  model = record { models = 5 ∷ 6 ∷ []; cycle = 0; num_mismatches = 1 };
  mem = idle;
  mmio = idle;
  host = blank;
  num_bad_cycles = 0;
}

same_count : IsAgreement counter (λ x y. x ≡ y)
same_count = record {
  ports = λ x y e. ap counter.get_ports e;
  vcd_start = λ f g x y e. e;
  vcd_dump = λ cycle x y e. e;
  eval = λ x y e. e;
  set_clock = λ b x y e. ap (counter.set_clock b) e;
  set_reset = λ b x y e. ap (counter.set_reset b) e;
  set_mem = λ i x y e. e;
  set_mmio = λ i x y e. e;
}

apart-returned : simulate counter 3 apart ≡ returned 1
unfolding simulate round feed drain judge clock compare_ports each mismatches differing
    differing_models first_mem first_mmio update_a update_b present_ack present_read handle_write
    accept_write accept_read present_ready
apart-returned = refl

simulate-start_example : simulate counter 1000 (start counter (5 ∷ 5 ∷ []) blank) ≢ returned 1
simulate-start_example =
    simulate-start counter (λ x y. x ≡ y) same_count (5 ∷ 5 ∷ []) blank 1000 (refl, tt)

simulate-Ends_example : Ends counter apart (simulate counter 3 apart)
simulate-Ends_example = simulate-Ends counter 3 apart (omega arith) (omega arith) (omega arith)
