-- ===== src/Guest/Barrier.antt =====
-- `barrier` of benchmarks/common/util.h: threads that share `sense` and `count` and act in any order. An action is one
-- access to a shared variable, or the change of the thread's own one; the accesses of a thread take effect in
-- the order of its code. `count` is
-- below the number of the threads plus one, so it does not wrap around.
pub mod Phase
pub mod Gather
pub mod Open
pub mod Reach
pub mod Between
pub mod Safe
pub mod Live
pub mod Steps
pub mod Fair
pub mod Tests
use arc_tests.Prelude.{
  ℕ, zero, suc, ◌+◌, ◌-◌, Bool, true, false, not, ◌==◌, if◌then◌else◌, List, [], ◌∷◌, length,
  replicate,
}
use arc_tests.Axi.Port.{bool_eq}

-- Where a thread stands: outside of `barrier`, behind the change of `threadsense`, in the loop, behind the test that makes it
-- the last one, and behind `count = 0`.
pub data Place : Type 0 where
  outside flipped waiting last resetting : Place

-- A thread, with the number of times that it has come back from `barrier`.
pub record Thread : Type 0 where
  pub place : Place
  pub threadsense : Bool
  pub passed : ℕ

pub record Shared : Type 0 where
  pub sense : Bool
  pub count : ℕ

-- The next action of a thread, among `ncores`. In the loop it stays until the senses agree.
unfoldable pub act_at : ℕ → Place → Shared → Thread → Shared × Thread
act_at ncores outside s t = (s, record t { place = flipped; threadsense = not t.threadsense })
act_at ncores flipped s t = (
  record s { count = s.count + 1 },
  record t { place = if s.count == ncores - 1 then last else waiting },
)
act_at ncores waiting s t =
    if bool_eq s.sense t.threadsense
    then (s, record t { place = outside; passed = t.passed + 1 })
    else (s, t)
act_at ncores last s t = (record s { count = 0 }, record t { place = resetting })
act_at ncores resetting s t =
    (record s { sense = t.threadsense }, record t { place = outside; passed = t.passed + 1 })

unfoldable pub act : ℕ → Shared → Thread → Shared × Thread
act ncores s t = act_at ncores t.place s t

-- Thread `i` acts. There is no action of a thread that there is not.
unfoldable pub act_of : ℕ → ℕ → Shared → List Thread → Shared × List Thread
act_of ncores i s [] = (s, [])
act_of ncores zero s (t ∷ ts) = let (s', t') = act ncores s t in (s', t' ∷ ts)
act_of ncores (suc i) s (t ∷ ts) = let (s', ts') = act_of ncores i s ts in (s', t ∷ ts')

-- The threads act in the order that is given.
unfoldable pub run_barrier : ℕ → List ℕ → Shared → List Thread → Shared × List Thread
run_barrier ncores [] s ts = (s, ts)
run_barrier ncores (i ∷ order) s ts =
    let (s', ts') = act_of ncores i s ts in run_barrier ncores order s' ts'

-- The variables before the first call.
abbrev pub new_shared : Shared
new_shared = record { sense = false; count = 0 }

abbrev pub new_thread : Thread
new_thread = record { place = outside; threadsense = false; passed = 0 }

-- The calls of `barrier` that a thread has begun.
abbrev pub begun_at : Place → ℕ
begun_at outside = 0
begun_at flipped = 1
begun_at waiting = 1
begun_at last = 1
begun_at resetting = 1

abbrev pub begun : Thread → ℕ
begun t = t.passed + begun_at t.place
