-- ===== src/Guest/Barrier/Reach.antt =====
-- The states that threads in `barrier` of benchmarks/common/util.h reach.
use arc_tests.Prelude.{
  ℕ, zero, suc, ◌<◌, ◌≡◌, ◌⊎◌, inl, inr, refl, ap, ◌∙◌, arith, List, [], ◌∷◌, length, replicate,
}
use arc_tests.Guest.Barrier.{last, resetting, Thread, Shared, act_of, run_barrier, new_thread}
use arc_tests.Guest.Barrier.Phase.{parity, AllGather, arrivals, OneOpens, OneArrives-OneOpens}
use arc_tests.Guest.Barrier.Gather.{gather_act_of}
use arc_tests.Guest.Barrier.Open.{reset_act_of, open_act_of}

length-act_of :
    (ncores i : ℕ) (s : Shared) (ts : List Thread) → length (act_of ncores i s ts).1 ≡ length ts
unfolding act_of
length-act_of ncores i s [] = refl
length-act_of ncores zero s (t ∷ ts) = refl
length-act_of ncores (suc i) s (t ∷ ts) = ap suc (length-act_of ncores i s ts)

-- The states that the threads reach, in generation `g`: all gather and those that have arrived are counted, or one opens
-- the barrier for the others.
abbrev pub Reached : ℕ → ℕ → Shared → List Thread → Type 0
Reached ncores g s ts =
    (length ts ≡ ncores)
    × (s.sense ≡ parity g)
    × ((AllGather g ts × (arrivals g ts ≡ s.count) × (s.count < ncores))
        ⊎ (OneOpens g last ts ⊎ (OneOpens g resetting ts × (s.count ≡ 0))))

act_of-Reached :
    (ncores g i : ℕ) (s : Shared) (ts : List Thread)
    → 0 < ncores
    → Reached ncores g s ts
    → let (s', ts') = act_of ncores i s ts in (g' : ℕ) × Reached ncores g' s' ts'
act_of-Reached ncores g i s ts some_core (size, sense, inl (gather, counted, room)) =
    let size' = length-act_of ncores i s ts ∙ size in
    elim (gather_act_of g ncores i s ts gather sense room) [
      | inl (gather', (same, count, room')) ↦
          (g, (size', same ∙ sense, inl (gather', omega (arith, count, counted), room')))
      | inr (arrives, (same, before, full)) ↦
          let ready =
            OneArrives-OneOpens g (act_of ncores i s ts).1 arrives
              (omega (arith, before, counted, full, size')) in
          (g, (size', same ∙ sense, inr (inl ready)))
    ]
act_of-Reached ncores g i s ts some_core (size, sense, inr (inl opens)) =
    let size' = length-act_of ncores i s ts ∙ size in
    let (same, outcome) = reset_act_of g ncores i s ts opens sense in
    (g, (size', same ∙ sense, inr outcome))
act_of-Reached ncores g i s ts some_core (size, sense, inr (inr (opens, zeroed))) =
    let size' = length-act_of ncores i s ts ∙ size in
    let (count, outcome) = open_act_of g ncores i s ts opens sense in
    elim outcome [
      | inl (same, still) ↦ (g, (size', same ∙ sense, inr (inr (still, count ∙ zeroed))))
      | inr (next, gather, none_yet) ↦ (
        suc g,
        (
          size',
          next,
          inl (
            gather,
            omega (arith, none_yet, count, zeroed),
            omega (arith, count, zeroed, some_core),
          ),
        ),
      )
    ]

pub run_barrier-Reached :
    (ncores g : ℕ) (order : List ℕ) (s : Shared) (ts : List Thread)
    → 0 < ncores
    → Reached ncores g s ts
    → let (s', ts') = run_barrier ncores order s ts in (g' : ℕ) × Reached ncores g' s' ts'
unfolding run_barrier
run_barrier-Reached ncores g [] s ts some_core h = (g, h)
run_barrier-Reached ncores g (i ∷ order) s ts some_core h =
    let (s', ts') = act_of ncores i s ts in
    let (g', h') = act_of-Reached ncores g i s ts some_core h in
    run_barrier-Reached ncores g' order s' ts' some_core h'

pub new_threads :
    (n : ℕ) → AllGather 0 (replicate n new_thread) × (arrivals 0 (replicate n new_thread) ≡ 0)
unfolding arrivals
new_threads zero = (tt, refl)
new_threads (suc n) = let rest = new_threads n in (((refl, refl), rest.0), omega (arith, rest.1))

pub length-replicate : (n : ℕ) (t : Thread) → length (replicate n t) ≡ n
length-replicate zero t = refl
length-replicate (suc n) t = ap suc (length-replicate n t)
