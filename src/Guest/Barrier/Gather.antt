-- ===== src/Guest/Barrier/Gather.antt =====
-- `barrier` of benchmarks/common/util.h while threads arrive.
use arc_tests.Prelude.{
  ℕ, zero, suc, ◌+◌, ◌-◌, ◌<◌, ◌≡◌, ◌⊎◌, inl, inr, refl, ap, ◌∙◌, sym, arith, Bool, true, false,
  not, ◌==◌, List, [], ◌∷◌, Bool-cases,
}
use arc_tests.Axi.Port.{bool_eq}
use arc_tests.Guest.Barrier.{
  Place, outside, flipped, waiting, last, resetting, Thread, Shared, act_at, act, act_of,
}
use arc_tests.Guest.Barrier.Phase.{
  parity, GathersAt, Gathers, AllGather, arrived_at, arrived, arrivals, Opens, OneArrives, not_ne,
  made,
}

-- What an action of a gathering thread or of one among several does to the shared variables, with the arrivals before and
-- after: the barrier stays closed, or it is full.
abbrev Stays : ℕ → Shared → Shared → ℕ → ℕ → Type 0
Stays ncores s s' a a' = (s'.sense ≡ s.sense) × (a' + s.count ≡ a + s'.count) × (s'.count < ncores)

abbrev Fills : ℕ → Shared → Shared → ℕ → ℕ → Type 0
Fills ncores s s' a a' = (s'.sense ≡ s.sense) × (a' ≡ a) × (s.count + 1 ≡ ncores)

pub bool_eq-eq : (a b : Bool) → bool_eq a b ≡ true → a ≡ b
bool_eq-eq true b e = sym e
bool_eq-eq false true e = absurd (ground (arith, e))
bool_eq-eq false false e = refl

-- Only a thread of the barrier before finds the senses equal.
gather_leave :
    (g ncores : ℕ) (b : Bool) (k : ℕ) (s : Shared)
    → GathersAt g waiting b k
    → s.sense ≡ parity g
    → bool_eq s.sense b ≡ true
    → s.count < ncores
    → (Gathers g (made outside b (k + 1))
        × Stays ncores s s (arrived_at g waiting k) (arrived g (made outside b (k + 1))))
      ⊎ (Opens g last (made outside b (k + 1))
          × Fills ncores s s (arrived_at g waiting k) (arrived g (made outside b (k + 1))))
gather_leave g ncores b k s (inl here) e same lt =
    absurd (not_ne (parity g) (sym here.1 ∙ sym (bool_eq-eq s.sense b same) ∙ e))
gather_leave g ncores b k s (inr before) e same lt =
    let gone : arrived_at g waiting k ≡ 0 = ground (arith, before.0) in
    inl ((omega (arith, before.0), before.1), (refl, omega (arith, gone), lt))

gather_act_at :
    (g ncores : ℕ) (p : Place) (b : Bool) (k : ℕ) (s : Shared)
    → GathersAt g p b k
    → s.sense ≡ parity g
    → s.count < ncores
    → let (s', t') = act_at ncores p s (made p b k) in
      (Gathers g t' × Stays ncores s s' (arrived_at g p k) (arrived g t'))
      ⊎ (Opens g last t' × Fills ncores s s' (arrived_at g p k) (arrived g t'))
unfolding act_at
gather_act_at g ncores outside b k s h e lt = inl ((h.0, ap not h.1), (refl, refl, lt))
gather_act_at g ncores flipped b k s h e lt = elim (Bool-cases (s.count == ncores - 1)) [
  | inl full ↦ rw full (inr ((refl, h.0, h.1), (refl, refl, ground (arith, lt))))
  | inr room ↦
      let here : arrived_at g waiting k ≡ 1 = ground (arith, h.0) in
      rw room (inl (inl (h.0, h.1), (refl, omega (arith, here), ground (arith, lt))))
]
gather_act_at g ncores waiting b k s h e lt = elim (Bool-cases (bool_eq s.sense b)) [
  | inl opened ↦ rw opened (gather_leave g ncores b k s h e opened lt)
  | inr closed ↦ rw closed (inl (h, (refl, refl, lt)))
]
gather_act_at g ncores last b k s h e lt = absurd h
gather_act_at g ncores resetting b k s h e lt = absurd h

-- The same of one of several threads.
pub gather_act_of :
    (g ncores i : ℕ) (s : Shared) (ts : List Thread)
    → AllGather g ts
    → s.sense ≡ parity g
    → s.count < ncores
    → let (s', ts') = act_of ncores i s ts in
      (AllGather g ts' × Stays ncores s s' (arrivals g ts) (arrivals g ts'))
      ⊎ (OneArrives g ts' × Fills ncores s s' (arrivals g ts) (arrivals g ts'))
unfolding act_of act arrivals
gather_act_of g ncores i s [] h e lt = inl (tt, (refl, refl, lt))
gather_act_of g ncores zero s (t ∷ ts) h e lt =
    elim (gather_act_at g ncores t.place t.threadsense t.passed s h.0 e lt) [
      | inl (gathers, (sense, count, room)) ↦
          inl ((gathers, h.1), (sense, omega (arith, count), room))
      | inr (opens, (sense, same, full)) ↦
          inr (inl (opens, h.1), (sense, omega (arith, same), full))
    ]
gather_act_of g ncores (suc i) s (t ∷ ts) h e lt = elim (gather_act_of g ncores i s ts h.1 e lt) [
  | inl (gathers, (sense, count, room)) ↦ inl ((h.0, gathers), (sense, omega (arith, count), room))
  | inr (opens, (sense, same, full)) ↦ inr (inr (h.0, opens), (sense, omega (arith, same), full))
]
