-- ===== src/Driver/Mismatch.antt =====
-- Models that differ under the driver of rocket/rocket-main.cpp, and the rounds up to its end.
use arc_tests.Prelude.{ℕ, zero, suc, ◌+◌, ◌≤◌, ◌<◌, ◌≡◌, refl, some, Option-cases, inl, inr, arith}
use arc_tests.Axi.Port.{update_a}
use arc_tests.Axi.Cycle.{see}
use arc_tests.Host.Device.{mem_port, mmio_port}
use arc_tests.Driver.{Design}
use arc_tests.Driver.Compare.{Comparing, compare_ports, each, clock, first_mem, first_mmio}
use arc_tests.Driver.Loop.{Sim, Exit, go_on, ends, feed, drain, judge, round, simulate}
use arc_tests.Driver.Lockstep.{Outcome-cases}

module _ {M : Type 0} (d : Design M) where
  -- The loop comes to an end by itself, not by its limit on the rounds.
  pub data Ends : Sim M → Exit → Type 0 where
    now : {s : Sim M} {e : Exit} → round d s ≡ ends e → Ends s e
    later : {s t : Sim M} {e : Exit} → round d s ≡ go_on t → Ends t e → Ends s e

  clock_mismatches : (c : Comparing M) → c.num_mismatches ≤ (clock d c).num_mismatches
  unfolding clock each compare_ports
  clock_mismatches c = omega arith

  drain_mismatches : (s : Sim M) → (drain d s).model.num_mismatches ≡ s.model.num_mismatches
  unfolding drain each
  drain_mismatches s = refl

  drain_bad : (s : Sim M) → (drain d s).num_bad_cycles ≡ s.num_bad_cycles
  unfolding drain each
  drain_bad s = refl

  feed_same :
      (s t : Sim M)
      → feed d s ≡ some t
      → (t.model.num_mismatches ≡ s.model.num_mismatches) × (t.num_bad_cycles ≡ s.num_bad_cycles)
  unfolding feed each
  feed_same s t e =
      elim (Option-cases (update_a mem_port s.host (see (first_mem d s.model.models) s.mem))) [
        | inl stop ↦ absurd (ground arith)
        | inr ((host₁, mem₁), one) ↦
            let model₁ = each d (d.set_mem mem₁.inputs) s.model in
            elim (Option-cases
              (update_a mmio_port host₁ (see (first_mmio d model₁.models) s.mmio))) [
                | inl stop ↦ absurd (ground arith)
                | inr ((host₂, mmio₁), two) ↦
                    (ground (arith, one, two, e), ground (arith, one, two, e))
              ]
      ]

  judge_bad :
      (s t : Sim M)
      → 0 < s.model.num_mismatches
      → judge d s ≡ go_on t
      → (0 < t.model.num_mismatches)
        × (t.num_bad_cycles ≡ s.num_bad_cycles + 1)
        × (t.num_bad_cycles < 3)
  unfolding judge
  judge_bad s t h e = (ground (arith, h, e), ground (arith, h, e), ground (arith, h, e))

  round_bad :
      (s t : Sim M)
      → 0 < s.model.num_mismatches
      → round d s ≡ go_on t
      → (0 < t.model.num_mismatches)
        × (t.num_bad_cycles ≡ s.num_bad_cycles + 1)
        × (t.num_bad_cycles < 3)
  unfolding round
  round_bad s t h e = elim (Option-cases (feed d s)) [
    | inl stop ↦ absurd (ground arith)
    | inr (s₁, one) ↦
        let s₂ = drain d s₁ in
        let m = feed_same s s₁ one in
        let more = clock_mismatches s₂.model in
        let same = drain_mismatches s₁ in
        let bad = drain_bad s₁ in
        let j =
          judge_bad (record s₂ { model = clock d s₂.model }) t (omega (arith, m.0, more, same, h))
            (ground (arith, one, e)) in
        (j.0, omega (arith, j.1, bad, m.1), j.2)
  ]

  -- Once a mismatch has been counted, with `b` rounds after it (fewer than three), the simulation ends by
  -- itself within `3 - b` further rounds: its exit does not come from the limit on the rounds.
  pub simulate-Ends :
      (left : ℕ) (s : Sim M)
      → 0 < s.model.num_mismatches
      → s.num_bad_cycles < 3
      → 3 ≤ left + s.num_bad_cycles
      → Ends s (simulate d left s)
  unfolding simulate
  simulate-Ends zero s h b enough = absurd (omega (arith, b, enough))
  simulate-Ends (suc left) s h b enough = elim (Outcome-cases (round d s)) [
    | inl (stop, one) ↦ rw (one, simulate) (now one)
    | inr (t, one) ↦
        let r = round_bad s t h one in
        let rest = simulate-Ends left t r.0 r.2 (omega (arith, enough, r.1)) in
        rw (one, simulate) (later one rest)
  ]
