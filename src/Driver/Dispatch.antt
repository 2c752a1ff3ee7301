-- ===== src/Driver/Dispatch.antt =====
-- The virtual calls of `RocketModel` (rocket/rocket-model.h) on objects of two classes.
use arc_tests.Driver.{Design}

-- A `std::unique_ptr<RocketModel>`: an object that `makeVerilatorModel` or `makeArcilatorModel` made.
pub data Object (V A : Type 0) : Type 0 where
  vtor : V → Object V A
  arcs : A → Object V A

-- A call on an object, given its meaning on either class.
abbrev pub call : {V A B : Type 0} → (V → B) → (A → B) → Object V A → B
call f g (vtor x) = f x
call f g (arcs y) = g y

abbrev pub change : {V A : Type 0} → (V → V) → (A → A) → Object V A → Object V A
change f g (vtor x) = vtor (f x)
change f g (arcs y) = arcs (g y)

abbrev pub either : {V A : Type 0} → Design V → Design A → Design (Object V A)
either v a = record {
  name = call v.name a.name;
  vcd_start = λ file. change (v.vcd_start file) (a.vcd_start file);
  vcd_dump = λ cycle. change (v.vcd_dump cycle) (a.vcd_dump cycle);
  eval = change v.eval a.eval;
  get_ports = call v.get_ports a.get_ports;
  set_clock = λ b. change (v.set_clock b) (a.set_clock b);
  set_reset = λ b. change (v.set_reset b) (a.set_reset b);
  set_mem = λ i. change (v.set_mem i) (a.set_mem i);
  get_mem = call v.get_mem a.get_mem;
  set_mmio = λ i. change (v.set_mmio i) (a.set_mmio i);
  get_mmio = call v.get_mmio a.get_mmio;
}
