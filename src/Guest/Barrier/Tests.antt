-- ===== src/Guest/Barrier/Tests.antt =====
-- Two threads at the barrier, and the theorems at their run.
use arc_tests.Prelude.{
  flatten, ◌+◌, ℕ, ◌≤◌, ◌≡◌, refl, ap, get_elem?, some, false, true, List, [], ◌∷◌, replicate,
  arith, zero, suc, inl, inr, length, ◌*◌, ◌<◌,
}
use arc_tests.Guest.Barrier.{
  outside, waiting, Thread, Shared, act, act_at, act_of, run_barrier, new_shared, new_thread, begun,
}
use arc_tests.Guest.Barrier.Safe.{barrier-passed}
use arc_tests.Guest.Barrier.Fair.{run_barrier-sweeps}
use arc_tests.Guest.Barrier.Steps.{HasTurn}

-- Thread 0 calls twice, and thread 1 once: thread 0 waits in its second call.
abbrev order : List ℕ
order = 0 ∷ 0 ∷ 1 ∷ 0 ∷ 1 ∷ 1 ∷ 0 ∷ 1 ∷ 0 ∷ 0 ∷ 0 ∷ []

abbrev ahead : Thread
ahead = record { place = waiting; threadsense = false; passed = 1 }

abbrev behind : Thread
behind = record { place = outside; threadsense = true; passed = 1 }

two_threads :
    run_barrier 2 order new_shared (replicate 2 new_thread)
    ≡ (record { sense = true; count = 1 }, ahead ∷ behind ∷ [])
unfolding run_barrier act_of act act_at
two_threads = refl

at_zero : get_elem? (run_barrier 2 order new_shared (replicate 2 new_thread)).1 0 ≡ some ahead
at_zero = ap (λ (r : Shared × List Thread). get_elem? r.1 0) two_threads

at_one : get_elem? (run_barrier 2 order new_shared (replicate 2 new_thread)).1 1 ≡ some behind
at_one = ap (λ (r : Shared × List Thread). get_elem? r.1 1) two_threads

barrier-passed_example : 1 ≤ begun behind
barrier-passed_example = barrier-passed 2 order 0 1 ahead behind (omega arith) at_zero at_one

-- In turns.
abbrev sweeps : List (List ℕ)
sweeps = replicate 5 (0 ∷ 1 ∷ [])

abbrev first_back : Thread
first_back = record { place = outside; threadsense = true; passed = 1 }

back_at :
    get_elem? (run_barrier 2 (flatten sweeps) new_shared (replicate 2 new_thread)).1 0
    ≡ some first_back
unfolding run_barrier act_of act act_at
back_at = refl

both_turn : (i : ℕ) → i < 2 → HasTurn i (0 ∷ 1 ∷ [])
both_turn zero lt = inl refl
both_turn (suc zero) lt = inr (inl refl)
both_turn (suc (suc i)) lt = absurd (omega (arith, lt))

run_barrier-sweeps_example : length sweeps ≤ 2 * (4 * first_back.passed + 7)
run_barrier-sweeps_example =
    run_barrier-sweeps 2 sweeps 0 first_back (omega arith)
      (both_turn, (both_turn, (both_turn, (both_turn, (both_turn, tt))))) back_at
