-- ===== src/Driver/Loop.antt =====
-- The simulation loop of `main` in rocket/rocket-main.cpp.
use arc_tests.Prelude.{ℕ, zero, suc, ◌+◌, Option, none, some, ltb, leb, if◌then◌else◌, List}
use arc_tests.Axi.Port.{AxiPort, idle, update_a, update_b}
use arc_tests.Axi.Cycle.{see}
use arc_tests.Host.Device.{Host, mem_port, mmio_port}
use arc_tests.Driver.{Design}
use arc_tests.Driver.Compare.{Comparing, each, clock, first_mem, first_mmio, reset_rounds}

pub record Sim (M : Type 0) : Type 0 where
  pub model : Comparing M
  pub mem : AxiPort
  pub mmio : AxiPort
  pub host : Host
  pub num_bad_cycles : ℕ

-- How the program ends: by a return from `main`, or by a failed assertion.
pub data Exit : Type 0 where
  returned : ℕ → Exit
  aborted : Exit

-- The loop goes on, or the program ends.
pub data Outcome (M : Type 0) : Type 0 where
  go_on : Sim M → Outcome M
  ends : Exit → Outcome M

module _ {M : Type 0} (d : Design M) where
  -- The two calls of `update_a`, and the evaluation.
  unfoldable pub feed : Sim M → Option (Sim M)
  feed s = elim (update_a mem_port s.host (see (first_mem d s.model.models) s.mem)) [
    | none ↦ none
    | some (host₁, mem₁) ↦
        let model₁ = each d (d.set_mem mem₁.inputs) s.model in
        elim (update_a mmio_port host₁ (see (first_mmio d model₁.models) s.mmio)) [
          | none ↦ none
          | some (host₂, mmio₁) ↦ some (record s {
            model = each d d.eval (each d (d.set_mmio mmio₁.inputs) model₁);
            mem = mem₁;
            mmio = mmio₁;
            host = host₂;
          })
        ]
  ]

  -- The two calls of `update_b`.
  unfoldable pub drain : Sim M → Sim M
  drain s =
      let mem₂ = update_b (see (first_mem d s.model.models) s.mem) in
      let model₁ = each d (d.set_mem mem₂.inputs) s.model in
      let mmio₂ = update_b (see (first_mmio d model₁.models) s.mmio) in
      record s { model = each d (d.set_mmio mmio₂.inputs) model₁; mem = mem₂; mmio = mmio₂ }

  -- The tests at the end of a round.
  unfoldable pub judge : Sim M → Outcome M
  judge s =
      let bad = s.num_bad_cycles + 1 in
      if s.host.finished
      then ends (returned 0)
      else if ltb 0 s.model.num_mismatches
      then (if leb 3 bad then ends (returned 1) else go_on (record s { num_bad_cycles = bad }))
      else go_on s

  unfoldable pub round : Sim M → Outcome M
  round s = elim (feed s) [
    | none ↦ ends aborted
    | some s₁ ↦ let s₂ = drain s₁ in judge (record s₂ { model = clock d s₂.model })
  ]

  -- The loop, with the rounds that are left; it returns 0 when they are used up.
  unfoldable pub simulate : ℕ → Sim M → Exit
  simulate zero s = returned 0
  simulate (suc left) s = elim (round s) [ ends e ↦ e | go_on s' ↦ simulate left s' ]

  -- The simulation from reset: `main` after the loader.
  unfoldable pub start : List M → Host → Sim M
  start ms h = record {
    model = reset_rounds d 1000 0 (record { models = ms; cycle = 0; num_mismatches = 0 });
    mem = idle;
    mmio = idle;
    host = h;
    num_bad_cycles = 0;
  }
