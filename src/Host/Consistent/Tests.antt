-- ===== src/Host/Consistent/Tests.antt =====
-- A store that is read back, and a word that is missing, on the port with plain memory.
use arc_tests.Prelude.{◌≡◌, refl, true, false, none, List, [], ◌∷◌}
use arc_tests.Axi.{AxiOutputs}
use arc_tests.Axi.Cycle.{Turn, turn}
use arc_tests.Axi.Port.{
  no_outputs, idle, update_a, update_b, present_ack, present_read, read_data, handle_write, store,
  lane_mask, accept_write, accept_read, present_ready, next_addr,
}
use arc_tests.Host.Device.{Host, mem_read, mem_write, mem_port}
use arc_tests.Host.Consistent.{read_beat, write_beat, trace, Serves, words_of, trace-Serves}

abbrev blank : Host
blank = record { memory = λ key. none; finished = false; console = [] }

abbrev both : AxiOutputs → Turn
both out = (out, out)

-- A burst of one store at 0x100; then one of two reads from there.
abbrev script : List Turn
script =
    both (record no_outputs { aw_valid = true; aw_addr = 0x100; aw_size = 3 })
    ∷ both (record no_outputs { w_valid = true; w_data = 77; w_strb = 0xff; w_last = true })
    ∷ both (record no_outputs {
      b_ready = true;
      ar_valid = true;
      ar_addr = 0x100;
      ar_len = 1;
      ar_size = 3;
    })
    ∷ both (record no_outputs { r_ready = true })
    ∷ both (record no_outputs { r_ready = true })
    ∷ []

script_beats :
    trace mem_port blank idle script
    ≡ write_beat 0x100 77 ∷ read_beat 0x100 77 ∷ read_beat 0x108 0x1050007310500073 ∷ []
unfolding trace turn update_a update_b present_ack present_read read_data handle_write store
    lane_mask accept_write accept_read present_ready next_addr mem_read mem_write
script_beats = refl

trace-Serves_example : Serves (words_of blank) (trace mem_port blank idle script)
trace-Serves_example = trace-Serves blank idle script
