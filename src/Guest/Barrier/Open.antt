-- ===== src/Guest/Barrier/Open.antt =====
-- `barrier` of benchmarks/common/util.h while one thread opens it for those that wait.
use arc_tests.Prelude.{
  ℕ, zero, suc, ◌+◌, ◌≡◌, ◌⊎◌, inl, inr, refl, ap, ◌∙◌, sym, arith, Bool, List, [], ◌∷◌, Bool-cases,
}
use arc_tests.Axi.Port.{bool_eq}
use arc_tests.Guest.Barrier.{
  Place, outside, flipped, waiting, last, resetting, Thread, Shared, act_at, act, act_of,
}
use arc_tests.Guest.Barrier.Phase.{
  parity, GathersAt, AllGather, arrived_at, arrivals, WaitsAt, Waits, AllWait, Opens, OneOpens,
  not_ne, made,
}
use arc_tests.Guest.Barrier.Gather.{bool_eq-eq}

-- A waiting thread stays as long as the sense is that of its generation.
wait_act_at :
    (g ncores : ℕ) (p : Place) (b : Bool) (k : ℕ) (s : Shared)
    → WaitsAt g p b k
    → s.sense ≡ parity g
    → act_at ncores p s (made p b k) ≡ (s, made p b k)
unfolding act_at
wait_act_at g ncores outside b k s h e = absurd h
wait_act_at g ncores flipped b k s h e = absurd h
wait_act_at g ncores waiting b k s h e = elim (Bool-cases (bool_eq s.sense b)) [
  | inl same ↦ absurd (not_ne (parity g) (sym h.1 ∙ sym (bool_eq-eq s.sense b same) ∙ e))
  | inr differs ↦ rw differs refl
]
wait_act_at g ncores last b k s h e = absurd h
wait_act_at g ncores resetting b k s h e = absurd h

wait_act :
    (g ncores : ℕ) (s : Shared) (t : Thread)
    → Waits g t
    → s.sense ≡ parity g
    → act ncores s t ≡ (s, t)
unfolding act
wait_act g ncores s t h e = wait_act_at g ncores t.place t.threadsense t.passed s h e

wait_act_of :
    (g ncores i : ℕ) (s : Shared) (ts : List Thread)
    → AllWait g ts
    → s.sense ≡ parity g
    → act_of ncores i s ts ≡ (s, ts)
unfolding act_of act
wait_act_of g ncores i s [] h e = refl
wait_act_of g ncores zero s (t ∷ ts) h e =
    ap (λ (r : Shared × Thread). (r.0, r.1 ∷ ts))
      (wait_act_at g ncores t.place t.threadsense t.passed s h.0 e)
wait_act_of g ncores (suc i) s (t ∷ ts) h e =
    ap (λ (r : Shared × List Thread). (r.0, t ∷ r.1)) (wait_act_of g ncores i s ts h.1 e)

-- What the opening thread does: it resets the count, and then changes the sense.
pub reset_act :
    (g ncores : ℕ) (s : Shared) (t : Thread)
    → Opens g last t
    → act ncores s t ≡ (record s { count = 0 }, record t { place = resetting })
unfolding act act_at
reset_act g ncores s t h = rw h.0 refl

pub open_act :
    (g ncores : ℕ) (s : Shared) (t : Thread)
    → Opens g resetting t
    → act ncores s t
      ≡ (record s { sense = t.threadsense }, record t { place = outside; passed = t.passed + 1 })
unfolding act act_at
open_act g ncores s t h = rw h.0 refl

pub reset_act_of :
    (g ncores i : ℕ) (s : Shared) (ts : List Thread)
    → OneOpens g last ts
    → s.sense ≡ parity g
    → let (s', ts') = act_of ncores i s ts in
      (s'.sense ≡ s.sense) × (OneOpens g last ts' ⊎ (OneOpens g resetting ts' × (s'.count ≡ 0)))
unfolding act_of
reset_act_of g ncores i s [] h e = absurd h
reset_act_of g ncores zero s (t ∷ ts) (inl (opens, wait)) e =
    rw (reset_act g ncores s t opens) (refl, inr (inl ((refl, opens.1, opens.2), wait), refl))
reset_act_of g ncores zero s (t ∷ ts) (inr (waits, rest)) e =
    rw (wait_act g ncores s t waits e) (refl, inl (inr (waits, rest)))
reset_act_of g ncores (suc i) s (t ∷ ts) (inl (opens, wait)) e =
    rw (wait_act_of g ncores i s ts wait e) (refl, inl (inl (opens, wait)))
reset_act_of g ncores (suc i) s (t ∷ ts) (inr (waits, rest)) e =
    let (sense, outcome) = reset_act_of g ncores i s ts rest e in
    (
      sense,
      elim outcome [
        | inl still ↦ inl (inr (waits, still))
        | inr (reset, zeroed) ↦ inr (inr (waits, reset), zeroed)
      ],
    )

-- Those that waited gather for the next generation, and none has arrived yet.
Waits-Gathers :
    (g : ℕ) (p : Place) (b : Bool) (k : ℕ)
    → WaitsAt g p b k
    → GathersAt (suc g) p b k × (arrived_at (suc g) p k ≡ 0)
Waits-Gathers g outside b k h = absurd h
Waits-Gathers g flipped b k h = absurd h
Waits-Gathers g waiting b k h = (inr (omega (arith, h.0), h.1), ground (arith, h.0))
Waits-Gathers g last b k h = absurd h
Waits-Gathers g resetting b k h = absurd h

AllWait-AllGather :
    (g : ℕ) (ts : List Thread) → AllWait g ts → AllGather (suc g) ts × (arrivals (suc g) ts ≡ 0)
unfolding arrivals
AllWait-AllGather g [] h = (tt, refl)
AllWait-AllGather g (t ∷ ts) h =
    let first = Waits-Gathers g t.place t.threadsense t.passed h.0 in
    let rest = AllWait-AllGather g ts h.1 in ((first.0, rest.0), omega (arith, first.1, rest.1))

pub open_act_of :
    (g ncores i : ℕ) (s : Shared) (ts : List Thread)
    → OneOpens g resetting ts
    → s.sense ≡ parity g
    → let (s', ts') = act_of ncores i s ts in
      (s'.count ≡ s.count)
      × (((s'.sense ≡ s.sense) × OneOpens g resetting ts')
          ⊎ ((s'.sense ≡ parity (suc g)) × AllGather (suc g) ts' × (arrivals (suc g) ts' ≡ 0)))
unfolding act_of arrivals
open_act_of g ncores i s [] h e = absurd h
open_act_of g ncores zero s (t ∷ ts) (inl (opens, wait)) e =
    let rest = AllWait-AllGather g ts wait in
    rw (open_act g ncores s t opens)
      (refl, inr (opens.2, ((omega (arith, opens.1), opens.2), rest.0), omega (arith, rest.1)))
open_act_of g ncores zero s (t ∷ ts) (inr (waits, rest)) e =
    rw (wait_act g ncores s t waits e) (refl, inl (refl, inr (waits, rest)))
open_act_of g ncores (suc i) s (t ∷ ts) (inl (opens, wait)) e =
    rw (wait_act_of g ncores i s ts wait e) (refl, inl (refl, inl (opens, wait)))
open_act_of g ncores (suc i) s (t ∷ ts) (inr (waits, rest)) e =
    let (count, outcome) = open_act_of g ncores i s ts rest e in
    let first = Waits-Gathers g t.place t.threadsense t.passed waits in
    (
      count,
      elim outcome [
        | inl (sense, still) ↦ inl (sense, inr (waits, still))
        | inr (sense, gather, zeroed) ↦
            inr (sense, (first.0, gather), omega (arith, first.1, zeroed))
      ],
    )
