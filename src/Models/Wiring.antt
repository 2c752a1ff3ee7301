-- ===== src/Models/Wiring.antt =====
-- The signals of an AXI port of a generated model, and how a wrapper class of rocket/ or boom/ is to connect them to the
-- driver's AXI ports.
use arc_tests.Axi.{AxiInputs, AxiOutputs}
use arc_tests.Models.{AxiSignals, AxiWidths, to_width}

-- A port whose inputs are these, as far as its fields hold them.
abbrev pub with_inputs : AxiWidths → AxiInputs → AxiSignals → AxiSignals
with_inputs w i s = record s {
  aw_ready = i.aw_ready;
  w_ready = i.w_ready;
  b_valid = i.b_valid;
  b_bits_id = to_width w.b_bits_id i.b_id;
  b_bits_resp = to_width w.b_bits_resp i.b_resp;
  ar_ready = i.ar_ready;
  r_valid = i.r_valid;
  r_bits_id = to_width w.r_bits_id i.r_id;
  r_bits_data = to_width w.r_bits_data i.r_data;
  r_bits_resp = to_width w.r_bits_resp i.r_resp;
  r_bits_last = i.r_last;
}

abbrev pub outputs_of : AxiSignals → AxiOutputs
outputs_of s = record {
  aw_valid = s.aw_valid;
  aw_id = s.aw_bits_id;
  aw_addr = s.aw_bits_addr;
  aw_len = s.aw_bits_len;
  aw_size = s.aw_bits_size;
  w_valid = s.w_valid;
  w_data = s.w_bits_data;
  w_strb = s.w_bits_strb;
  w_last = s.w_bits_last;
  b_ready = s.b_ready;
  ar_valid = s.ar_valid;
  ar_id = s.ar_bits_id;
  ar_addr = s.ar_bits_addr;
  ar_len = s.ar_bits_len;
  ar_size = s.ar_bits_size;
  r_ready = s.r_ready;
}
