-- ===== src/Driver/Aborts.antt =====
-- How the loop of rocket/rocket-main.cpp comes to a failed assertion: those of the closures on a store, and that of
-- `AxiPort::update_a` on its `last` mark.
mod Tests
use arc_tests.Prelude.{
  ℕ, zero, suc, ◌<◌, ◌≡◌, ◌≢◌, ◌⊎◌, arith, true, false, ◌==◌, ◌↔◌, none, some, Option-cases, inl,
  inr, bit_and,
}
use arc_tests.Axi.{AxiOutputs}
use arc_tests.Axi.Cycle.{see}
use arc_tests.Axi.Port.{AxiPort, Callbacks, store, update_a, lane_mask, bool_eq}
use arc_tests.Axi.Stores.{update_a-eq-none_iff}
use arc_tests.Host.Device.{Host, mem_write, mem_port, mmio_write, mmio_port}
use arc_tests.Driver.{Design}
use arc_tests.Driver.Compare.{clock, each, first_mem, first_mmio}
use arc_tests.Driver.Loop.{Sim, aborted, ends, feed, drain, judge, round, simulate}
use arc_tests.Driver.Lockstep.{Outcome-cases}
use arc_tests.Driver.Widths.{Reaches, here, next}

-- A beat that the port expects and that does not write its whole word, or is marked wrong.
pub record IsBadBeat (p : AxiPort) (out : AxiOutputs) : Type 0 where
  pub sent : out.w_valid ≡ true
  pub due : 0 < p.write_beats_left
  pub bad :
      (bit_and out.w_strb (lane_mask p.write_addr p.write_size) ≢ 0xff)
      ⊎ (bool_eq out.w_last (p.write_beats_left == 1) ≡ false)

mem_write-eq-none_iff :
    (h : Host) (addr word mask : ℕ) → (mem_write h addr word mask ≡ none) ↔ (mask ≢ 0xff)
unfolding mem_write
mem_write-eq-none_iff h addr word mask =
    (λ e full. ground (arith, e, full), λ partial. ground (arith, partial))

mmio_write-eq-none_iff :
    (h : Host) (addr word mask : ℕ) → (mmio_write h addr word mask ≡ none) ↔ (mask ≢ 0xff)
unfolding mmio_write
mmio_write-eq-none_iff h addr word mask =
    (λ e full. ground (arith, e, full), λ partial. ground (arith, partial))

-- Behind callbacks that refuse exactly a partial mask, `update_a` stops exactly on a bad beat.
update_a-IsBadBeat :
    (fns : Callbacks Host) (h : Host) (p : AxiPort) (out : AxiOutputs)
    → ((addr word mask : ℕ) → (store fns h addr word mask ≡ none) ↔ (mask ≢ 0xff))
    → (update_a fns h (see out p) ≡ none) ↔ IsBadBeat p out
update_a-IsBadBeat fns h p out refuses =
    let stops = update_a-eq-none_iff fns h (see out p) in
    let mask = bit_and out.w_strb (lane_mask p.write_addr p.write_size) in
    let refused = refuses p.write_addr out.w_data mask in
    (
      λ e.
          let (sent, due, why) = stops.0 e in
          record {
            sent = sent;
            due = due;
            bad = elim why [ inl none_back ↦ inl (refused.0 none_back) | inr marked ↦ inr marked ];
          },
      λ b. stops.1 (
        b.sent,
        b.due,
        elim b.bad [ inl partial ↦ inl (refused.1 partial) | inr marked ↦ inr marked ],
      ),
    )

mem-IsBadBeat :
    (h : Host) (p : AxiPort) (out : AxiOutputs)
    → (update_a mem_port h (see out p) ≡ none) ↔ IsBadBeat p out
unfolding store
mem-IsBadBeat h p out = update_a-IsBadBeat mem_port h p out (mem_write-eq-none_iff h)

mmio-IsBadBeat :
    (h : Host) (p : AxiPort) (out : AxiOutputs)
    → (update_a mmio_port h (see out p) ≡ none) ↔ IsBadBeat p out
unfolding store
mmio-IsBadBeat h p out = update_a-IsBadBeat mmio_port h p out (mmio_write-eq-none_iff h)

module _ {M : Type 0} (d : Design M) where
  -- In this state, the design shows the driver a bad beat: on its first port, or on its second one after the inputs of
  -- the first have been set.
  pub data ShowsBadBeat (s : Sim M) : Type 0 where
    on_mem : IsBadBeat s.mem (first_mem d s.model.models) → ShowsBadBeat s
    on_mmio :
        {h : Host} {m : AxiPort}
        → update_a mem_port s.host (see (first_mem d s.model.models) s.mem) ≡ some (h, m)
        → IsBadBeat s.mmio (first_mmio d (each d (d.set_mem m.inputs) s.model).models)
        → ShowsBadBeat s

  feed-ShowsBadBeat : (s : Sim M) → feed d s ≡ none → ShowsBadBeat s
  unfolding feed
  feed-ShowsBadBeat s e =
      elim (Option-cases (update_a mem_port s.host (see (first_mem d s.model.models) s.mem))) [
        | inl stop ↦ on_mem ((mem-IsBadBeat s.host s.mem _).0 stop)
        | inr ((host₁, mem₁), one) ↦
            let out = first_mmio d (each d (d.set_mem mem₁.inputs) s.model).models in
            elim (Option-cases (update_a mmio_port host₁ (see out s.mmio))) [
              | inl stop ↦ on_mmio one ((mmio-IsBadBeat host₁ s.mmio out).0 stop)
              | inr (r, two) ↦ absurd (ground (arith, one, two, e))
            ]
      ]

  ShowsBadBeat-feed : (s : Sim M) → ShowsBadBeat s → feed d s ≡ none
  unfolding feed
  ShowsBadBeat-feed s (on_mem b) =
      let stops = (mem-IsBadBeat s.host s.mem (first_mem d s.model.models)).1 b in
      ground (arith, stops)
  ShowsBadBeat-feed s (on_mmio {h} {m} one b) =
      let out = first_mmio d (each d (d.set_mem m.inputs) s.model).models in
      let stops = (mmio-IsBadBeat h s.mmio out).1 b in ground (arith, one, stops)

  judge-ne-aborted : (s : Sim M) → judge d s ≢ ends aborted
  unfolding judge
  judge-ne-aborted s e = ground (arith, e)

  round-ShowsBadBeat : (s : Sim M) → round d s ≡ ends aborted → ShowsBadBeat s
  unfolding round
  round-ShowsBadBeat s e = elim (Option-cases (feed d s)) [
    | inl stop ↦ feed-ShowsBadBeat s stop
    | inr (t, one) ↦
        let s₂ = drain d t in
        absurd (judge-ne-aborted (record s₂ { model = clock d s₂.model }) (ground (arith, one, e)))
  ]

  simulate-ShowsBadBeat :
      (left : ℕ) (s : Sim M)
      → simulate d left s ≡ aborted
      → (t : Sim M) × Reaches d s t × ShowsBadBeat t
  unfolding simulate
  simulate-ShowsBadBeat zero s e = absurd (ground (arith, e))
  simulate-ShowsBadBeat (suc left) s e = elim (Outcome-cases (round d s)) [
    | inl (stop, one) ↦ (s, here, round-ShowsBadBeat s (ground (arith, one, e)))
    | inr (t, one) ↦
        let (u, steps, shows) = simulate-ShowsBadBeat left t (ground (arith, one, e)) in
        (u, next one steps, shows)
  ]

  ShowsBadBeat-simulate :
      {s t : Sim M} → Reaches d s t → ShowsBadBeat t → (left : ℕ) × (simulate d left s ≡ aborted)
  unfolding simulate round
  ShowsBadBeat-simulate {s = s} here shows =
      let stops = ShowsBadBeat-feed s shows in (1, ground (arith, stops))
  ShowsBadBeat-simulate (next one steps) shows =
      let (left, e) = ShowsBadBeat-simulate steps shows in (suc left, ground (arith, one, e))

  -- From any state, the simulation comes to a failed assertion within some number of rounds exactly if it reaches a state
  -- in which the design shows a bad beat on one of its ports: one that the port expects and that does not write its whole
  -- word, or whose `last` mark is wrong.
  pub aborted_iff :
      (s : Sim M)
      → ((left : ℕ) × (simulate d left s ≡ aborted))
        ↔ ((t : Sim M) × Reaches d s t × ShowsBadBeat t)
  aborted_iff s = (
    λ (left, e). simulate-ShowsBadBeat left s e,
    λ (t, steps, shows). ShowsBadBeat-simulate steps shows,
  )
