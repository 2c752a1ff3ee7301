-- ===== src/Guest/Barrier/Safe.antt =====
-- That `barrier` of benchmarks/common/util.h holds its threads together.
use arc_tests.Prelude.{ℕ, ◌<◌, ◌≤◌, ◌≡◌, inl, inr, refl, arith, List, get_elem?, replicate, some}
use arc_tests.Guest.Barrier.{
  last, resetting, Thread, Shared, run_barrier, new_shared, new_thread, begun,
}
use arc_tests.Guest.Barrier.Reach.{Reached, run_barrier-Reached, new_threads, length-replicate}
use arc_tests.Guest.Barrier.Between.{Between, AllGather-Between, OneOpens-Between}

Reached-Between :
    (ncores g i : ℕ) (s : Shared) (ts : List Thread) (t : Thread)
    → Reached ncores g s ts
    → get_elem? ts i ≡ some t
    → Between g t
Reached-Between ncores g i s ts t (_, _, inl (gather, _, _)) e = AllGather-Between g i ts t gather e
Reached-Between ncores g i s ts t (_, _, inr (inl opens)) e = OneOpens-Between g i last ts t opens e
Reached-Between ncores g i s ts t (_, _, inr (inr (opens, _))) e =
    OneOpens-Between g i resetting ts t opens e

module _ (ncores : ℕ) (order : List ℕ) (i j : ℕ) (t u : Thread) where
  -- However `ncores` threads that call `barrier` again and again are interleaved, none has come back from it more often than
  -- each of them has called it.
  pub barrier-passed :
      0 < ncores
      → get_elem? (run_barrier ncores order new_shared (replicate ncores new_thread)).1 i ≡ some t
      → get_elem? (run_barrier ncores order new_shared (replicate ncores new_thread)).1 j ≡ some u
      → t.passed ≤ begun u
  barrier-passed some_core at_i at_j =
      let threads = replicate ncores new_thread in
      let (s, ts) = run_barrier ncores order new_shared threads in
      let fresh = new_threads ncores in
      let (g, h) =
        run_barrier-Reached ncores 0 order new_shared threads some_core
          (length-replicate ncores new_thread, refl, inl (fresh.0, fresh.1, some_core)) in
      let left = Reached-Between ncores g i s ts t h at_i in
      let right = Reached-Between ncores g j s ts u h at_j in omega (arith, left.0, right.1)
