-- ===== src/Models/Boom/Verilator.antt =====
-- `VerilatorBoomModel` of boom/boom-model-vtor.cpp. `eval_model` is `model.eval()` of the class Vboom, which
-- Verilator generates.
use arc_tests.Prelude.{ℕ, Bool, some, List, [], codes}
use mathlib.Core.Option
use arc_tests.Axi.{AxiInputs, AxiOutputs}
use arc_tests.Driver.{Design}
use arc_tests.Models.{Widths, to_width, Generated, Wrapped, drive, sample}
use arc_tests.Models.Boom.{ports}

module _ {H : Type 0} (widths : Widths) (eval_model : Generated H → Generated H) where
  abbrev pub name : Wrapped H → List ℕ
  name m = codes "vtor"

  -- Built with `TRACE`. A trace that was going on is dropped.
  unfoldable pub vcd_start : List ℕ → Wrapped H → Wrapped H
  vcd_start file m = record m { model_vcd = some (record { file = file; samples = [] }) }

  unfoldable pub vcd_dump : ℕ → Wrapped H → Wrapped H
  vcd_dump cycle m = record m { model_vcd = Option.map (sample cycle m.model.view) m.model_vcd }

  unfoldable pub eval : Wrapped H → Wrapped H
  eval m = record m { model = eval_model m.model }

  unfoldable pub get_ports : Wrapped H → List ℕ
  unfolding ports
  get_ports m = ports m.model.view

  unfoldable pub set_reset : Bool → Wrapped H → Wrapped H
  set_reset reset m = drive (λ v. record v { reset = reset }) m

  unfoldable pub set_clock : Bool → Wrapped H → Wrapped H
  set_clock clock m = drive (λ v. record v { clock = clock }) m

  unfoldable pub set_mem : AxiInputs → Wrapped H → Wrapped H
  set_mem i m =
      drive
        (λ v. record v {
          mem_axi4_0 = record v.mem_axi4_0 {
            aw_ready = i.aw_ready;
            w_ready = i.w_ready;
            b_valid = i.b_valid;
            b_bits_id = to_width widths.mem_axi4_0.b_bits_id i.b_id;
            b_bits_resp = to_width widths.mem_axi4_0.b_bits_resp i.b_resp;
            ar_ready = i.ar_ready;
            r_valid = i.r_valid;
            r_bits_id = to_width widths.mem_axi4_0.r_bits_id i.r_id;
            r_bits_data = to_width widths.mem_axi4_0.r_bits_data i.r_data;
            r_bits_resp = to_width widths.mem_axi4_0.r_bits_resp i.r_resp;
            r_bits_last = i.r_last;
          };
        })
        m

  unfoldable pub get_mem : Wrapped H → AxiOutputs
  get_mem m =
      let s = m.model.view.mem_axi4_0 in
      record {
        aw_valid = s.aw_valid;
        aw_id = s.aw_bits_id;
        aw_addr = s.aw_bits_addr;
        aw_len = s.aw_bits_len;
        aw_size = s.aw_bits_size;
        w_valid = s.w_valid;
        w_data = s.w_bits_data;
        w_strb = s.w_bits_strb;
        w_last = s.w_bits_last;
        b_ready = s.b_ready;
        ar_valid = s.ar_valid;
        ar_id = s.ar_bits_id;
        ar_addr = s.ar_bits_addr;
        ar_len = s.ar_bits_len;
        ar_size = s.ar_bits_size;
        r_ready = s.r_ready;
      }

  unfoldable pub set_mmio : AxiInputs → Wrapped H → Wrapped H
  set_mmio i m =
      drive
        (λ v. record v {
          mmio_axi4_0 = record v.mmio_axi4_0 {
            aw_ready = i.aw_ready;
            w_ready = i.w_ready;
            b_valid = i.b_valid;
            b_bits_id = to_width widths.mmio_axi4_0.b_bits_id i.b_id;
            b_bits_resp = to_width widths.mmio_axi4_0.b_bits_resp i.b_resp;
            ar_ready = i.ar_ready;
            r_valid = i.r_valid;
            r_bits_id = to_width widths.mmio_axi4_0.r_bits_id i.r_id;
            r_bits_data = to_width widths.mmio_axi4_0.r_bits_data i.r_data;
            r_bits_resp = to_width widths.mmio_axi4_0.r_bits_resp i.r_resp;
            r_bits_last = i.r_last;
          };
        })
        m

  unfoldable pub get_mmio : Wrapped H → AxiOutputs
  get_mmio m =
      let s = m.model.view.mmio_axi4_0 in
      record {
        aw_valid = s.aw_valid;
        aw_id = s.aw_bits_id;
        aw_addr = s.aw_bits_addr;
        aw_len = s.aw_bits_len;
        aw_size = s.aw_bits_size;
        w_valid = s.w_valid;
        w_data = s.w_bits_data;
        w_strb = s.w_bits_strb;
        w_last = s.w_bits_last;
        b_ready = s.b_ready;
        ar_valid = s.ar_valid;
        ar_id = s.ar_bits_id;
        ar_addr = s.ar_bits_addr;
        ar_len = s.ar_bits_len;
        ar_size = s.ar_bits_size;
        r_ready = s.r_ready;
      }

  -- The object behind `makeVerilatorModel()`, as the driver uses it.
  abbrev pub wrapper : Design (Wrapped H)
  wrapper = record {
    name = name;
    vcd_start = vcd_start;
    vcd_dump = vcd_dump;
    eval = eval;
    get_ports = get_ports;
    set_clock = set_clock;
    set_reset = set_reset;
    set_mem = set_mem;
    get_mem = get_mem;
    set_mmio = set_mmio;
    get_mmio = get_mmio;
  }
