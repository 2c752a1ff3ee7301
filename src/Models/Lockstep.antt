-- ===== src/Models/Lockstep.antt =====
-- The Verilator model and the Arcilator model of a core under the drivers of rocket/rocket-main.cpp and
-- boom/boom-main.cpp.
use arc_tests.Prelude.{ℕ, Bool, ◌≡◌, ◌≢◌, ◌⊎◌, inl, inr, ap, sym, ◌∙◌, Option, some, List}
use arc_tests.Axi.{AxiInputs}
use arc_tests.Host.Loader.{Segment}
use arc_tests.Driver.{Design}
use arc_tests.Driver.Args.{Text}
use arc_tests.Driver.Dispatch.{Object, vtor, arcs, either, change}
use arc_tests.Driver.Exits.{IsRefused, IsLoading, IsRefused-or_IsLoading, main-ne-one}
use arc_tests.Driver.Loop.{returned}
use arc_tests.Driver.Lockstep.{IsAgreement}
use arc_tests.Driver.Main as RocketMain
use arc_tests.Boom.Main as BoomMain
use arc_tests.Boom.Same.{main_same}
use arc_tests.Models.{Widths, View, Generated, Wrapped, drive}
use arc_tests.Models.Wiring.{with_inputs}
use arc_tests.Models.Contract.{
  IsWrapper, rocket_arcilator-IsWrapper, rocket_verilator-IsWrapper, boom_arcilator-IsWrapper,
  boom_verilator-IsWrapper,
}
use arc_tests.Models.Rocket as Rocket
use arc_tests.Models.Rocket.Arcilator as RocketArcilator
use arc_tests.Models.Rocket.Verilator as RocketVerilator
use arc_tests.Models.Boom as Boom
use arc_tests.Models.Boom.Arcilator as BoomArcilator
use arc_tests.Models.Boom.Verilator as BoomVerilator

-- What the driver assigns to the signals of a model.
pub data Assignment : Type 0 where
  clock : Bool → Assignment
  reset : Bool → Assignment
  mem : AxiInputs → Assignment
  mmio : AxiInputs → Assignment

abbrev pub assigned : Widths → Assignment → View → View
assigned widths (clock b) v = record v { clock = b }
assigned widths (reset b) v = record v { reset = b }
assigned widths (mem i) v = record v { mem_axi4_0 = with_inputs widths.mem_axi4_0 i v.mem_axi4_0 }
assigned widths (mmio i) v = record v {
  mmio_axi4_0 = with_inputs widths.mmio_axi4_0 i v.mmio_axi4_0;
}

-- What the two tools promise, for the same circuit: a relation `S` between the states of their models under
-- which the signals are equal, and which an evaluation of both keeps, as does each assignment of the driver to both.
pub record SameCircuit {V A : Type 0} (widths : Widths) (eval_vtor : Generated V → Generated V)
    (eval_arcs : Generated A → Generated A) (S : Generated V → Generated A → Type 0) : Type 0 where
  pub views : (x : Generated V) (y : Generated A) → S x y → x.view ≡ y.view
  pub eval : (x : Generated V) (y : Generated A) → S x y → S (eval_vtor x) (eval_arcs y)
  pub drive :
      (a : Assignment) (x : Generated V) (y : Generated A)
      → S x y
      → S
          (record x { view = assigned widths a x.view })
          (record y { view = assigned widths a y.view })

module _ {V A : Type 0} (widths : Widths) (eval_vtor : Generated V → Generated V)
    (eval_arcs : Generated A → Generated A) (S : Generated V → Generated A → Type 0)
    (same : SameCircuit widths eval_vtor eval_arcs S) where
  -- Models of the two classes in related states.
  abbrev Related : Object (Wrapped V) (Wrapped A) → Object (Wrapped V) (Wrapped A) → Type 0
  Related (vtor x) (arcs y) = S x.model y.model
  Related (vtor x) (vtor y) = ⊥
  Related (arcs x) b = ⊥

  -- To prove it of two objects that are changed, one has only to look at those of the two classes.
  Related-change :
      (f f' : Wrapped V → Wrapped V) (g g' : Wrapped A → Wrapped A)
      → ((x : Wrapped V) (y : Wrapped A) → S x.model y.model → S (f x).model (g' y).model)
      → (x y : Object (Wrapped V) (Wrapped A)) → Related x y
      → Related (change f g x) (change f' g' y)
  Related-change f f' g g' keep (vtor x) (arcs y) r = keep x y r
  Related-change f f' g g' keep (vtor x) (vtor y) r = absurd r
  Related-change f f' g g' keep (arcs x) b r = absurd r

  module _ (ports : View → List ℕ) (dv : Design (Wrapped V)) (da : Design (Wrapped A))
      (wv : IsWrapper ports widths eval_vtor dv) (wa : IsWrapper ports widths eval_arcs da) where
    -- Two calls that drive the same signals.
    drives :
        (a : Assignment) (g : Wrapped V → Wrapped V) (h : Wrapped A → Wrapped A)
        → ((x : Wrapped V) → g x ≡ drive (assigned widths a) x)
        → ((y : Wrapped A) → h y ≡ drive (assigned widths a) y)
        → (x y : Object (Wrapped V) (Wrapped A)) → Related x y
        → Related (change g h x) (change g h y)
    drives a g h eg eh =
        Related-change g g h h λ x y r. rw (eg x, eh y) (same.drive a x.model y.model r)

    Related-ports :
        (x y : Object (Wrapped V) (Wrapped A))
        → Related x y
        → (either dv da).get_ports x ≡ (either dv da).get_ports y
    Related-ports (vtor x) (arcs y) r =
        wv.get_ports x ∙ ap ports (same.views x.model y.model r) ∙ sym (wa.get_ports y)
    Related-ports (vtor x) (vtor y) r = absurd r
    Related-ports (arcs x) b r = absurd r

    Related-IsAgreement : IsAgreement (either dv da) Related
    Related-IsAgreement = record {
      ports = Related-ports;
      vcd_start = λ f g.
          Related-change (dv.vcd_start f) (dv.vcd_start g) (da.vcd_start f) (da.vcd_start g)
            λ x y r. rw (wv.vcd_start f x, wa.vcd_start g y) r;
      vcd_dump = λ cycle.
          Related-change (dv.vcd_dump cycle) (dv.vcd_dump cycle) (da.vcd_dump cycle)
            (da.vcd_dump cycle) λ x y r. rw (wv.vcd_dump cycle x, wa.vcd_dump cycle y) r;
      eval =
          Related-change dv.eval dv.eval da.eval da.eval
            λ x y r. rw (wv.eval x, wa.eval y) (same.eval x.model y.model r);
      set_clock =
          λ b. drives (clock b) (dv.set_clock b) (da.set_clock b) (wv.set_clock b) (wa.set_clock b);
      set_reset =
          λ b. drives (reset b) (dv.set_reset b) (da.set_reset b) (wv.set_reset b) (wa.set_reset b);
      set_mem = λ i. drives (mem i) (dv.set_mem i) (da.set_mem i) (wv.set_mem i) (wa.set_mem i);
      set_mmio =
          λ i. drives (mmio i) (dv.set_mmio i) (da.set_mmio i) (wv.set_mmio i) (wa.set_mmio i);
    }

    loading-ne-one :
        (x : Wrapped V) (y : Wrapped A)
        → S x.model y.model
        → (elf_load : Text → Option (List Segment)) (args : List Text) → IsLoading elf_load args
        → RocketMain.main dv da x y elf_load args ≢ some (returned 1)
    loading-ne-one x y r elf_load = main-ne-one dv da x y Related Related-IsAgreement r elf_load

  -- Where Verilator and Arcilator simulate the same circuit, with fields of the same widths, from new models in related
  -- states: either the arguments are refused or ELFIO cannot open the file, or neither the program of Rocket nor that of
  -- BOOM returns 1. So 1 never comes from a port mismatch, whatever models, trace and binary are asked for.
  pub mains-ne-one :
      (x : Wrapped V) (y : Wrapped A) (elf_load : Text → Option (List Segment)) (args : List Text)
      → S x.model y.model
      → IsRefused elf_load args
        ⊎ ((RocketMain.main
                (RocketVerilator.wrapper widths eval_vtor)
                (RocketArcilator.wrapper widths eval_arcs)
                x
                y
                elf_load
                args
              ≢ some (returned 1))
            × (BoomMain.main
                  (BoomVerilator.wrapper widths eval_vtor)
                  (BoomArcilator.wrapper widths eval_arcs)
                  x
                  y
                  elf_load
                  args
                ≢ some (returned 1)))
  mains-ne-one x y elf_load args r =
      let rv = RocketVerilator.wrapper widths eval_vtor in
      let ra = RocketArcilator.wrapper widths eval_arcs in
      let bv = BoomVerilator.wrapper widths eval_vtor in
      let ba = BoomArcilator.wrapper widths eval_arcs in
      elim (IsRefused-or_IsLoading elf_load args) [
        | inl refused ↦ inl refused
        | inr loading ↦ inr (
          loading-ne-one Rocket.ports rv ra (rocket_verilator-IsWrapper widths eval_vtor)
              (rocket_arcilator-IsWrapper widths eval_arcs) x y r elf_load args loading,
          λ e.
              loading-ne-one Boom.ports bv ba (boom_verilator-IsWrapper widths eval_vtor)
                (boom_arcilator-IsWrapper widths eval_arcs) x y r elf_load args loading
                (sym (main_same bv ba x y elf_load args) ∙ e),
        )
      ]
