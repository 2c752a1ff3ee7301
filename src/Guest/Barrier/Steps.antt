-- ===== src/Guest/Barrier/Steps.antt =====
-- How far the actions in `barrier` of benchmarks/common/util.h take its threads.
use arc_tests.Prelude.{
  ℕ, zero, suc, ◌+◌, ◌*◌, ◌≤◌, ◌≡◌, ◌⊎◌, inl, inr, refl, ap, ◌∙◌, sym, arith, Bool, List, [], ◌∷◌,
  get_elem?, some, Bool-cases,
}
use mathlib.Core.Path.{subst}
use arc_tests.Axi.Port.{bool_eq}
use arc_tests.Guest.Barrier.{
  Place, outside, flipped, waiting, last, resetting, Thread, Shared, act_at, act, act_of,
  run_barrier,
}
use arc_tests.Guest.Barrier.Phase.{made}
use arc_tests.Guest.Barrier.Live.{Moves}

-- The actions of a thread that took it on, counted from its place.
abbrev pub place_steps : Place → ℕ
place_steps outside = 0
place_steps flipped = 1
place_steps waiting = 2
place_steps last = 2
place_steps resetting = 3

abbrev pub steps : Thread → ℕ
steps t = 4 * t.passed + place_steps t.place

unfoldable pub total : List Thread → ℕ
total [] = 0
total (t ∷ ts) = steps t + total ts

-- An action changes nothing, or takes the thread on.
act_at-steps :
    (ncores : ℕ) (p : Place) (b : Bool) (k : ℕ) (s : Shared)
    → (act_at ncores p s (made p b k) ≡ (s, made p b k))
      ⊎ (steps (made p b k) + 1 ≤ steps (act_at ncores p s (made p b k)).1)
unfolding act_at
act_at-steps ncores outside b k s = inr (omega arith)
act_at-steps ncores flipped b k s = inr (ground arith)
act_at-steps ncores waiting b k s = elim (Bool-cases (bool_eq s.sense b)) [
  | inl opened ↦ inr (rw opened (omega arith))
  | inr closed ↦ inl (rw closed refl)
]
act_at-steps ncores last b k s = inr (omega arith)
act_at-steps ncores resetting b k s = inr (omega arith)

act_of-steps :
    (ncores i : ℕ) (s : Shared) (ts : List Thread)
    → (act_of ncores i s ts ≡ (s, ts)) ⊎ (total ts + 1 ≤ total (act_of ncores i s ts).1)
unfolding act_of act total
act_of-steps ncores i s [] = inl refl
act_of-steps ncores zero s (t ∷ ts) = elim (act_at-steps ncores t.place t.threadsense t.passed s) [
  | inl idle ↦ inl (ap (λ (r : Shared × Thread). (r.0, r.1 ∷ ts)) idle)
  | inr on ↦ inr (omega (arith, on))
]
act_of-steps ncores (suc i) s (t ∷ ts) = elim (act_of-steps ncores i s ts) [
  | inl idle ↦ inl (ap (λ (r : Shared × List Thread). (r.0, t ∷ r.1)) idle)
  | inr on ↦ inr (omega (arith, on))
]

-- A thread that can move does, at its turn.
act_of-Moves :
    (ncores i : ℕ) (s : Shared) (ts : List Thread) (t : Thread)
    → get_elem? ts i ≡ some t
    → Moves ncores s t
    → total ts + 1 ≤ total (act_of ncores i s ts).1
unfolding act_of act total
act_of-Moves ncores i s [] t at moves = absurd (ground (arith, at))
act_of-Moves ncores zero s (u ∷ ts) t at moves =
    elim (act_at-steps ncores u.place u.threadsense u.passed s) [
      | inl idle ↦
          let same : u ≡ t = cc in
          absurd
            (subst (Moves ncores s) (sym same) moves (ap (λ (r : Shared × Thread). r.1.place) idle))
      | inr on ↦ omega (arith, on)
    ]
act_of-Moves ncores (suc i) s (u ∷ ts) t at moves =
    omega (arith, act_of-Moves ncores i s ts t at moves)

run_barrier-steps :
    (ncores : ℕ) (order : List ℕ) (s : Shared) (ts : List Thread)
    → total ts ≤ total (run_barrier ncores order s ts).1
unfolding run_barrier
run_barrier-steps ncores [] s ts = omega arith
run_barrier-steps ncores (i ∷ order) s ts =
    let (s', ts') = act_of ncores i s ts in
    let rest = run_barrier-steps ncores order s' ts' in
    elim (act_of-steps ncores i s ts) [
      | inl idle ↦ omega (arith, ap (λ (r : Shared × List Thread). total r.1) idle, rest)
      | inr on ↦ omega (arith, on, rest)
    ]

-- Thread `i` has a turn.
abbrev pub HasTurn : ℕ → List ℕ → Type 0
HasTurn i [] = ⊥
HasTurn i (j ∷ order) = (j ≡ i) ⊎ HasTurn i order

-- Where a thread that can move has a turn, something moves.
pub run_barrier-Moves :
    (ncores i : ℕ) (order : List ℕ) (s : Shared) (ts : List Thread) (t : Thread)
    → get_elem? ts i ≡ some t
    → Moves ncores s t
    → HasTurn i order
    → total ts + 1 ≤ total (run_barrier ncores order s ts).1
unfolding run_barrier
run_barrier-Moves ncores i [] s ts t at moves turn = absurd turn
run_barrier-Moves ncores i (j ∷ order) s ts t at moves (inl now) =
    let (s', ts') = act_of ncores j s ts in
    let here = act_of-Moves ncores j s ts t (ap (get_elem? ts) now ∙ at) moves in
    omega (arith, here, run_barrier-steps ncores order s' ts')
run_barrier-Moves ncores i (j ∷ order) s ts t at moves (inr later) =
    elim (act_of-steps ncores j s ts) [
      | inl idle ↦
          let same =
            ap (λ (r : Shared × List Thread). total (run_barrier ncores order r.0 r.1).1) idle in
          omega (arith, same, run_barrier-Moves ncores i order s ts t at moves later)
      | inr on ↦
          let (s', ts') = act_of ncores j s ts in
          omega (arith, on, run_barrier-steps ncores order s' ts')
    ]
