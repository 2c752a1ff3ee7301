-- ===== src/Guest/Barrier/Fair.antt =====
-- That `barrier` of benchmarks/common/util.h lets every thread come back again and again, if every thread gets its turns.
use arc_tests.Prelude.{
  flatten, ℕ, zero, suc, ◌+◌, ◌*◌, ◌<◌, ◌≤◌, ◌≡◌, inl, refl, ap, arith, List, [], ◌∷◌, ◌++◌, length,
  get_elem?, replicate, some,
}
use native.Mathlib.Nat.{suc-mul}
use arc_tests.Guest.Barrier.{
  Place, outside, flipped, waiting, last, resetting, Thread, Shared, act_of, run_barrier,
  new_shared, new_thread, begun_at,
}
use arc_tests.Guest.Barrier.Reach.{Reached, run_barrier-Reached, new_threads, length-replicate}
use arc_tests.Guest.Barrier.Safe.{barrier-passed}
use arc_tests.Guest.Barrier.Live.{Reached-OneMoves}
use arc_tests.Guest.Barrier.Steps.{place_steps, total, HasTurn, run_barrier-Moves}

run_barrier-append :
    (ncores : ℕ) (xs ys : List ℕ) (s : Shared) (ts : List Thread)
    → let (s', ts') = run_barrier ncores xs s ts in
      run_barrier ncores (xs ++ ys) s ts ≡ run_barrier ncores ys s' ts'
unfolding run_barrier
run_barrier-append ncores [] ys s ts = refl
run_barrier-append ncores (i ∷ xs) ys s ts =
    let (s', ts') = act_of ncores i s ts in run_barrier-append ncores xs ys s' ts'

-- Sweeps, in each of which every one of `ncores` threads has a turn.
abbrev pub AreSweeps : ℕ → List (List ℕ) → Type 0
AreSweeps ncores [] = Unit
AreSweeps ncores (order ∷ sweeps) =
    ((i : ℕ) → i < ncores → HasTurn i order) × AreSweeps ncores sweeps

get_elem?-lt : (ts : List Thread) (i : ℕ) (t : Thread) → get_elem? ts i ≡ some t → i < length ts
get_elem?-lt [] i t at = absurd (ground (arith, at))
get_elem?-lt (u ∷ ts) zero t at = omega arith
get_elem?-lt (u ∷ ts) (suc i) t at = omega (arith, get_elem?-lt ts i t at)

-- Each sweep takes a thread on.
sweeps-steps :
    (ncores g : ℕ) (sweeps : List (List ℕ)) (s : Shared) (ts : List Thread)
    → 0 < ncores
    → AreSweeps ncores sweeps
    → Reached ncores g s ts
    → length sweeps + total ts ≤ total (run_barrier ncores (flatten sweeps) s ts).1
unfolding run_barrier
sweeps-steps ncores g [] s ts some_core h r = omega arith
sweeps-steps ncores g (order ∷ sweeps) s ts some_core h r =
    let (s', ts') = run_barrier ncores order s ts in
    let (i, t, at, moves) = Reached-OneMoves ncores g s ts r in
    let turn = h.0 i (omega (arith, get_elem?-lt ts i t at, r.0)) in
    let on = run_barrier-Moves ncores i order s ts t at moves turn in
    let (g', r') = run_barrier-Reached ncores g order s ts some_core r in
    let rest = sweeps-steps ncores g' sweeps s' ts' some_core h.1 r' in
    let joined =
      ap (λ (q : Shared × List Thread). total q.1)
        (run_barrier-append ncores order (flatten sweeps) s ts) in
    omega (arith, on, rest, joined)

place_steps-le : (p : Place) → place_steps p ≤ 3
place_steps-le outside = omega arith
place_steps-le flipped = omega arith
place_steps-le waiting = omega arith
place_steps-le last = omega arith
place_steps-le resetting = omega arith

begun_at-le : (p : Place) → begun_at p ≤ 1
begun_at-le outside = omega arith
begun_at-le flipped = omega arith
begun_at-le waiting = omega arith
begun_at-le last = omega arith
begun_at-le resetting = omega arith

-- Threads that have not passed more than `q` barriers have not been taken on more than so often.
total-le :
    (q : ℕ) (ts : List Thread)
    → ((j : ℕ) (u : Thread) → get_elem? ts j ≡ some u → u.passed ≤ q)
    → total ts ≤ length ts * (4 * q + 3)
unfolding total
total-le q [] h = omega arith
total-le q (t ∷ ts) h =
    let first = h 0 t refl in
    let rest = total-le q ts (λ j u at. h (suc j) u at) in
    let few = place_steps-le t.place in
    omega (arith, first, rest, few, suc-mul (length ts) (4 * q + 3))

total-new_threads : (n : ℕ) → total (replicate n new_thread) ≡ 0
unfolding total
total-new_threads zero = refl
total-new_threads (suc n) = omega (arith, total-new_threads n)

-- No thread is held up: however `ncores` threads that call `barrier` again and again are interleaved, if every one of them
-- has a turn in each of a number of sweeps, this number is at most `ncores * (4 * p + 7)`, where `p` is how often any one of
-- them has come back.
pub run_barrier-sweeps :
    (ncores : ℕ) (sweeps : List (List ℕ)) (i : ℕ) (t : Thread)
    → 0 < ncores
    → AreSweeps ncores sweeps
    → get_elem? (run_barrier ncores (flatten sweeps) new_shared (replicate ncores new_thread)).1 i
      ≡ some t
    → length sweeps ≤ ncores * (4 * t.passed + 7)
run_barrier-sweeps ncores sweeps i t some_core h at =
    let threads = replicate ncores new_thread in
    let (s', ts') = run_barrier ncores (flatten sweeps) new_shared threads in
    let fresh = new_threads ncores in
    let first : Reached ncores 0 new_shared threads =
      (length-replicate ncores new_thread, refl, inl (fresh.0, fresh.1, some_core)) in
    let on = sweeps-steps ncores 0 sweeps new_shared threads some_core h first in
    let (g', r') =
      run_barrier-Reached ncores 0 (flatten sweeps) new_shared threads some_core first in
    let most = total-le (t.passed + 1) ts' λ j u at_j. omega (
      arith,
      barrier-passed ncores (flatten sweeps) j i u t some_core at_j at,
      begun_at-le t.place,
    ) in
    let size : length ts' * (4 * (t.passed + 1) + 3) ≡ ncores * (4 * t.passed + 7) =
      rw (r'.0) (ap (λ (k : ℕ). ncores * k) (omega arith)) in
    omega (arith, on, most, size, total-new_threads ncores)
