-- ===== src/Models/Contract.antt =====
-- What the driver relies on in a wrapper class of rocket/ or boom/, and that the four classes have it.
use arc_tests.Prelude.{ℕ, ◌≡◌, refl, Bool, List}
use arc_tests.Axi.{AxiInputs}
use arc_tests.Driver.{Design}
use arc_tests.Models.{Widths, View, Generated, Wrapped, drive}
use arc_tests.Models.Wiring.{with_inputs, outputs_of}
use arc_tests.Models.Rocket as Rocket
use arc_tests.Models.Rocket.Arcilator as RocketArcilator
use arc_tests.Models.Rocket.Verilator as RocketVerilator
use arc_tests.Models.Boom as Boom
use arc_tests.Models.Boom.Arcilator as BoomArcilator
use arc_tests.Models.Boom.Verilator as BoomVerilator

-- A class that wraps the generated code `eval_model` of a core with these ports: each call does to the model what its
-- name says, and nothing else.
pub record IsWrapper {H : Type 0} (ports : View → List ℕ) (widths : Widths)
    (eval_model : Generated H → Generated H) (d : Design (Wrapped H)) : Type 0 where
  pub get_ports : (m : Wrapped H) → d.get_ports m ≡ ports m.model.view
  pub get_mem : (m : Wrapped H) → d.get_mem m ≡ outputs_of m.model.view.mem_axi4_0
  pub get_mmio : (m : Wrapped H) → d.get_mmio m ≡ outputs_of m.model.view.mmio_axi4_0
  pub eval : (m : Wrapped H) → d.eval m ≡ record m { model = eval_model m.model }
  pub vcd_start : (file : List ℕ) (m : Wrapped H) → (d.vcd_start file m).model ≡ m.model
  pub vcd_dump : (cycle : ℕ) (m : Wrapped H) → (d.vcd_dump cycle m).model ≡ m.model
  pub set_clock :
      (b : Bool) (m : Wrapped H) → d.set_clock b m ≡ drive (λ v. record v { clock = b }) m
  pub set_reset :
      (b : Bool) (m : Wrapped H) → d.set_reset b m ≡ drive (λ v. record v { reset = b }) m
  pub set_mem :
      (i : AxiInputs) (m : Wrapped H)
      → d.set_mem i m
        ≡ drive (λ v. record v { mem_axi4_0 = with_inputs widths.mem_axi4_0 i v.mem_axi4_0 }) m
  pub set_mmio :
      (i : AxiInputs) (m : Wrapped H)
      → d.set_mmio i m
        ≡ drive (λ v. record v { mmio_axi4_0 = with_inputs widths.mmio_axi4_0 i v.mmio_axi4_0 }) m

pub rocket_arcilator-IsWrapper :
    {H : Type 0} (widths : Widths) (eval_model : Generated H → Generated H)
    → IsWrapper Rocket.ports widths eval_model (RocketArcilator.wrapper widths eval_model)
unfolding RocketArcilator.get_ports RocketArcilator.get_mem RocketArcilator.get_mmio
    RocketArcilator.eval RocketArcilator.vcd_start RocketArcilator.vcd_dump
    RocketArcilator.set_clock RocketArcilator.set_reset RocketArcilator.set_mem
    RocketArcilator.set_mmio
rocket_arcilator-IsWrapper widths eval_model = record {
  get_ports = λ m. refl;
  get_mem = λ m. refl;
  get_mmio = λ m. refl;
  eval = λ m. refl;
  vcd_start = λ x m. refl;
  vcd_dump = λ x m. refl;
  set_clock = λ x m. refl;
  set_reset = λ x m. refl;
  set_mem = λ x m. refl;
  set_mmio = λ x m. refl;
}

pub rocket_verilator-IsWrapper :
    {H : Type 0} (widths : Widths) (eval_model : Generated H → Generated H)
    → IsWrapper Rocket.ports widths eval_model (RocketVerilator.wrapper widths eval_model)
unfolding RocketVerilator.get_ports RocketVerilator.get_mem RocketVerilator.get_mmio
    RocketVerilator.eval RocketVerilator.vcd_start RocketVerilator.vcd_dump
    RocketVerilator.set_clock RocketVerilator.set_reset RocketVerilator.set_mem
    RocketVerilator.set_mmio
rocket_verilator-IsWrapper widths eval_model = record {
  get_ports = λ m. refl;
  get_mem = λ m. refl;
  get_mmio = λ m. refl;
  eval = λ m. refl;
  vcd_start = λ x m. refl;
  vcd_dump = λ x m. refl;
  set_clock = λ x m. refl;
  set_reset = λ x m. refl;
  set_mem = λ x m. refl;
  set_mmio = λ x m. refl;
}

pub boom_arcilator-IsWrapper :
    {H : Type 0} (widths : Widths) (eval_model : Generated H → Generated H)
    → IsWrapper Boom.ports widths eval_model (BoomArcilator.wrapper widths eval_model)
unfolding BoomArcilator.get_ports BoomArcilator.get_mem BoomArcilator.get_mmio BoomArcilator.eval
    BoomArcilator.vcd_start BoomArcilator.vcd_dump BoomArcilator.set_clock BoomArcilator.set_reset
    BoomArcilator.set_mem BoomArcilator.set_mmio
boom_arcilator-IsWrapper widths eval_model = record {
  get_ports = λ m. refl;
  get_mem = λ m. refl;
  get_mmio = λ m. refl;
  eval = λ m. refl;
  vcd_start = λ x m. refl;
  vcd_dump = λ x m. refl;
  set_clock = λ x m. refl;
  set_reset = λ x m. refl;
  set_mem = λ x m. refl;
  set_mmio = λ x m. refl;
}

pub boom_verilator-IsWrapper :
    {H : Type 0} (widths : Widths) (eval_model : Generated H → Generated H)
    → IsWrapper Boom.ports widths eval_model (BoomVerilator.wrapper widths eval_model)
unfolding BoomVerilator.get_ports BoomVerilator.get_mem BoomVerilator.get_mmio BoomVerilator.eval
    BoomVerilator.vcd_start BoomVerilator.vcd_dump BoomVerilator.set_clock BoomVerilator.set_reset
    BoomVerilator.set_mem BoomVerilator.set_mmio
boom_verilator-IsWrapper widths eval_model = record {
  get_ports = λ m. refl;
  get_mem = λ m. refl;
  get_mmio = λ m. refl;
  eval = λ m. refl;
  vcd_start = λ x m. refl;
  vcd_dump = λ x m. refl;
  set_clock = λ x m. refl;
  set_reset = λ x m. refl;
  set_mem = λ x m. refl;
  set_mmio = λ x m. refl;
}
