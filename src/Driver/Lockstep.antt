-- ===== src/Driver/Lockstep.antt =====
-- Models that agree under the driver of rocket/rocket-main.cpp, from reset on.
use arc_tests.Prelude.{
  ℕ, zero, suc, ◌+◌, ◌≡◌, ◌≢◌, refl, ◌⊎◌, Bool, true, false, some, Option-cases, inl, inr, ltb,
  List, [], ◌∷◌, map, arith,
}
use arc_tests.Axi.{AxiInputs}
use arc_tests.Axi.Port.{update_a}
use arc_tests.Axi.Cycle.{see}
use arc_tests.Host.Device.{Host, mem_port, mmio_port}
use arc_tests.Driver.{Design}
use arc_tests.Driver.Compare.{
  Comparing, differing, differing_models, mismatches, compare_ports, each, clock, first_mem,
  first_mmio, reset_rounds,
}
use arc_tests.Driver.Loop.{
  Sim, Exit, returned, Outcome, go_on, ends, feed, drain, judge, round, simulate, start,
}

-- Two models agree: a relation that the driver's calls keep and under which all ports read the same.
pub record IsAgreement {M : Type 0} (d : Design M) (R : M → M → Type 0) : Type 0 where
  pub ports : (x y : M) → R x y → d.get_ports x ≡ d.get_ports y
  pub vcd_start : (f g : List ℕ) (x y : M) → R x y → R (d.vcd_start f x) (d.vcd_start g y)
  pub vcd_dump : (cycle : ℕ) (x y : M) → R x y → R (d.vcd_dump cycle x) (d.vcd_dump cycle y)
  pub eval : (x y : M) → R x y → R (d.eval x) (d.eval y)
  pub set_clock : (b : Bool) (x y : M) → R x y → R (d.set_clock b x) (d.set_clock b y)
  pub set_reset : (b : Bool) (x y : M) → R x y → R (d.set_reset b x) (d.set_reset b y)
  pub set_mem : (i : AxiInputs) (x y : M) → R x y → R (d.set_mem i x) (d.set_mem i y)
  pub set_mmio : (i : AxiInputs) (x y : M) → R x y → R (d.set_mmio i x) (d.set_mmio i y)

-- To split on how a round goes on.
pub Outcome-cases :
    {M : Type 0} (o : Outcome M) → ((x : Exit) × (o ≡ ends x)) ⊎ ((t : Sim M) × (o ≡ go_on t))
Outcome-cases (ends x) = inl (x, refl)
Outcome-cases (go_on t) = inr (t, refl)

differing_self : (ps : List ℕ) → differing ps ps ≡ 0
unfolding differing
differing_self [] = refl
differing_self (p ∷ ps) = ground (arith, differing_self ps)

module _ {M : Type 0} (d : Design M) (R : M → M → Type 0) where
  abbrev pub AllAgree : M → List M → Type 0
  AllAgree m [] = Unit
  AllAgree m (x ∷ xs) = R m x × AllAgree m xs

  -- The first model agrees with each of the others.
  abbrev pub Agree : List M → Type 0
  Agree [] = Unit
  Agree (m ∷ ms) = AllAgree m ms

module _ {M : Type 0} (d : Design M) (R : M → M → Type 0) (a : IsAgreement d R) where
  AllAgree-map :
      (f : M → M)
      → ((x y : M) → R x y → R (f x) (f y))
      → (m : M) (ms : List M) → AllAgree d R m ms
      → AllAgree d R (f m) (map f ms)
  AllAgree-map f keep m [] h = tt
  AllAgree-map f keep m (x ∷ xs) h = (keep m x h.0, AllAgree-map f keep m xs h.1)

  Agree-map :
      (f : M → M)
      → ((x y : M) → R x y → R (f x) (f y))
      → (ms : List M) → Agree d R ms
      → Agree d R (map f ms)
  Agree-map f keep [] h = tt
  Agree-map f keep (m ∷ ms) h = AllAgree-map f keep m ms h

  differing_models-AllAgree :
      (m : M) (ms : List M) → AllAgree d R m ms → differing_models d (d.get_ports m) ms ≡ 0
  unfolding differing_models
  differing_models-AllAgree m [] h = refl
  differing_models-AllAgree m (x ∷ xs) h =
      rw (← a.ports m x h.0, differing_self (d.get_ports m), differing_models-AllAgree m xs h.1)
        refl

  mismatches-Agree : (ms : List M) → Agree d R ms → mismatches d ms ≡ 0
  unfolding mismatches
  mismatches-Agree [] h = refl
  mismatches-Agree (m ∷ ms) h = differing_models-AllAgree m ms h

  -- The driver's models agree, and no mismatch has been counted.
  pub record InStep (c : Comparing M) : Type 0 where
    pub agree : Agree d R c.models
    pub clean : c.num_mismatches ≡ 0

  each-InStep :
      (f : M → M) (c : Comparing M)
      → ((x y : M) → R x y → R (f x) (f y))
      → InStep c
      → InStep (each d f c)
  unfolding each
  each-InStep f c keep s = record { agree = Agree-map f keep c.models s.agree; clean = s.clean }

  compare_ports-InStep : (c : Comparing M) → InStep c → InStep (compare_ports d c)
  unfolding compare_ports
  compare_ports-InStep c s = record {
    agree = s.agree;
    clean = omega (arith, s.clean, mismatches-Agree c.models s.agree);
  }

  clock-InStep : (c : Comparing M) → InStep c → InStep (clock d c)
  unfolding clock
  clock-InStep c s =
      let c₁ = compare_ports d c in
      let c₀ = each d (d.vcd_dump c₁.cycle) c₁ in
      let c₂ = each d (d.set_clock true) c₀ in
      let c₃ = each d d.eval c₂ in
      let c₄ = each d (d.set_clock false) c₃ in
      let s₁ = compare_ports-InStep c s in
      let s₀ = each-InStep (d.vcd_dump c₁.cycle) c₁ (a.vcd_dump c₁.cycle) s₁ in
      let s₂ = each-InStep (d.set_clock true) c₀ (a.set_clock true) s₀ in
      let s₃ = each-InStep d.eval c₂ a.eval s₂ in
      let s₄ = each-InStep (d.set_clock false) c₃ (a.set_clock false) s₃ in
      let s₅ = each-InStep d.eval c₄ a.eval s₄ in record { agree = s₅.agree; clean = s₅.clean }

  pub reset_rounds-InStep :
      (left i : ℕ) (c : Comparing M) → InStep c → InStep (reset_rounds d left i c)
  unfolding reset_rounds
  reset_rounds-InStep zero i c s = s
  reset_rounds-InStep (suc left) i c s =
      let held = each d (d.set_reset (ltb i 100)) c in
      reset_rounds-InStep left (i + 1) (clock d held)
        (clock-InStep held (each-InStep (d.set_reset (ltb i 100)) c (a.set_reset (ltb i 100)) s))

  drain-InStep : (s : Sim M) → InStep s.model → InStep (drain d s).model
  unfolding drain
  drain-InStep s h = each-InStep _ _ (a.set_mmio _) (each-InStep _ s.model (a.set_mem _) h)

  feed-InStep : (s t : Sim M) → InStep s.model → feed d s ≡ some t → InStep t.model
  unfolding feed
  feed-InStep s t h e =
      elim (Option-cases (update_a mem_port s.host (see (first_mem d s.model.models) s.mem))) [
        | inl stop ↦ absurd (ground arith)
        | inr ((host₁, mem₁), one) ↦
            let model₁ = each d (d.set_mem mem₁.inputs) s.model in
            let h₁ = each-InStep (d.set_mem mem₁.inputs) s.model (a.set_mem mem₁.inputs) h in
            elim (Option-cases
              (update_a mmio_port host₁ (see (first_mmio d model₁.models) s.mmio))) [
                | inl stop ↦ absurd (ground arith)
                | inr ((host₂, mmio₁), two) ↦
                    let model₂ = each d (d.set_mmio mmio₁.inputs) model₁ in
                    let h₂ =
                      each-InStep (d.set_mmio mmio₁.inputs) model₁ (a.set_mmio mmio₁.inputs) h₁ in
                    let h₃ = each-InStep d.eval model₂ a.eval h₂ in
                    let same : each d d.eval model₂ ≡ t.model = ground (arith, one, two, e) in
                    rw (← same) h₃
              ]
      ]

  judge-InStep : (s t : Sim M) → InStep s.model → judge d s ≡ go_on t → InStep t.model
  unfolding judge
  judge-InStep s t h e =
      let clean = h.clean in
      let same : s.model ≡ t.model = ground (arith, clean, e) in rw (← same) h

  judge-ne-one : (s : Sim M) → InStep s.model → judge d s ≢ ends (returned 1)
  unfolding judge
  judge-ne-one s h e = let clean = h.clean in ground (arith, clean, e)

  round-InStep : (s t : Sim M) → InStep s.model → round d s ≡ go_on t → InStep t.model
  unfolding round
  round-InStep s t h e = elim (Option-cases (feed d s)) [
    | inl stop ↦ absurd (ground arith)
    | inr (s₁, one) ↦
        let s₂ = drain d s₁ in
        let h₂ = clock-InStep s₂.model (drain-InStep s₁ (feed-InStep s s₁ h one)) in
        judge-InStep (record s₂ { model = clock d s₂.model }) t h₂ (ground (arith, one, e))
  ]

  round-ne-one : (s : Sim M) → InStep s.model → round d s ≢ ends (returned 1)
  unfolding round
  round-ne-one s h e = elim (Option-cases (feed d s)) [
    | inl stop ↦ absurd (ground arith)
    | inr (s₁, one) ↦
        let s₂ = drain d s₁ in
        let h₂ = clock-InStep s₂.model (drain-InStep s₁ (feed-InStep s s₁ h one)) in
        judge-ne-one (record s₂ { model = clock d s₂.model }) h₂ (ground (arith, one, e))
  ]

  pub simulate-ne-one : (left : ℕ) (s : Sim M) → InStep s.model → simulate d left s ≢ returned 1
  unfolding simulate
  simulate-ne-one zero s h e = absurd (ground arith)
  simulate-ne-one (suc left) s h e = elim (Outcome-cases (round d s)) [
    | inl (stop, one) ↦ round-ne-one s h (ground (arith, one, e))
    | inr (t, one) ↦ simulate-ne-one left t (round-InStep s t h one) (ground (arith, one, e))
  ]

  -- Where all models agree, under a relation that the driver's calls keep and that makes the ports read
  -- the same, the simulation never returns 1, the exit of a mismatch: from reset, with any memory and
  -- under any limit on the rounds.
  pub simulate-start :
      (ms : List M) (h : Host) (left : ℕ)
      → Agree d R ms
      → simulate d left (start d ms h) ≢ returned 1
  unfolding start
  simulate-start ms h left all = simulate-ne-one left (start d ms h) (
      reset_rounds-InStep 1000 0 (record { models = ms; cycle = 0; num_mismatches = 0 })
        (record { agree = all; clean = refl }))
