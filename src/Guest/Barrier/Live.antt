-- ===== src/Guest/Barrier/Live.antt =====
-- That no threads block each other in `barrier` of benchmarks/common/util.h.
use arc_tests.Prelude.{
  ℕ, suc, ◌<◌, ◌≡◌, ◌≢◌, inl, inr, refl, ap, ◌∙◌, sym, arith, Bool, true, false, not, ◌==◌, List,
  [], ◌∷◌, length, get_elem?, replicate, some, Bool-cases,
}
use arc_tests.Axi.Port.{bool_eq}
use arc_tests.Guest.Barrier.{
  Place, outside, flipped, waiting, last, resetting, Thread, Shared, act_at, act, run_barrier,
  new_shared, new_thread,
}
use arc_tests.Guest.Barrier.Phase.{
  parity, GathersAt, AllGather, arrived_at, arrived, arrivals, Opens, OneOpens, made, arrived_at-le,
}
use arc_tests.Guest.Barrier.Open.{reset_act, open_act}
use arc_tests.Guest.Barrier.Reach.{Reached, run_barrier-Reached, new_threads, length-replicate}

-- The next action of a thread takes it to another place.
abbrev pub Moves : ℕ → Shared → Thread → Type 0
Moves ncores s t = (act ncores s t).1.place ≢ t.place

bool_eq_same : (a b : Bool) → a ≡ b → bool_eq a b ≡ true
bool_eq_same true b e = sym e
bool_eq_same false b e = ap not (sym e)

-- A thread that gathers moves if it has not arrived.
gather_place :
    (g ncores : ℕ) (p : Place) (b : Bool) (k : ℕ) (s : Shared)
    → GathersAt g p b k
    → s.sense ≡ parity g
    → arrived_at g p k ≡ 0
    → (act_at ncores p s (made p b k)).1.place ≢ p
unfolding act_at
gather_place g ncores outside b k s h e none_yet same = ground (arith, same)
gather_place g ncores flipped b k s h e none_yet same = ground (arith, same)
gather_place g ncores waiting b k s (inl here) e none_yet same =
    absurd (ground (arith, here.0, none_yet))
gather_place g ncores waiting b k s (inr before) e none_yet same =
    let opened = bool_eq_same s.sense b (e ∙ sym before.1) in ground (arith, opened, same)
gather_place g ncores last b k s h e none_yet same = h
gather_place g ncores resetting b k s h e none_yet same = h

-- One of several threads.
abbrev pub OneMoves : ℕ → Shared → List Thread → Type 0
OneMoves ncores s ts = (i : ℕ) × (t : Thread) × (get_elem? ts i ≡ some t) × Moves ncores s t

gather-OneMoves :
    (g ncores : ℕ) (s : Shared) (ts : List Thread)
    → AllGather g ts
    → s.sense ≡ parity g
    → arrivals g ts < length ts
    → OneMoves ncores s ts
unfolding arrivals act
gather-OneMoves g ncores s [] h e lt = absurd (omega (arith, lt))
gather-OneMoves g ncores s (t ∷ ts) h e lt = elim (Bool-cases (arrived g t == 0)) [
  | inl none_yet ↦
      (0, t, refl, gather_place g ncores t.place t.threadsense t.passed s h.0 e (ground arith))
  | inr there ↦
      let le = arrived_at-le g t.place t.passed in
      let (i, u, at, moves) = gather-OneMoves g ncores s ts h.1 e (ground (arith, le, lt, there)) in
      (suc i, u, at, moves)
]

last-Moves : (g ncores : ℕ) (s : Shared) (t : Thread) → Opens g last t → Moves ncores s t
last-Moves g ncores s t h same =
    let e = ap (λ (r : Shared × Thread). r.1.place) (reset_act g ncores s t h) in
    ground (arith, sym e ∙ same ∙ h.0)

resetting-Moves : (g ncores : ℕ) (s : Shared) (t : Thread) → Opens g resetting t → Moves ncores s t
resetting-Moves g ncores s t h same =
    let e = ap (λ (r : Shared × Thread). r.1.place) (open_act g ncores s t h) in
    ground (arith, sym e ∙ same ∙ h.0)

OneOpens-OneMoves :
    (g ncores : ℕ) (p : Place) (s : Shared) (ts : List Thread)
    → ((t : Thread) → Opens g p t → Moves ncores s t)
    → OneOpens g p ts
    → OneMoves ncores s ts
OneOpens-OneMoves g ncores p s [] moves h = absurd h
OneOpens-OneMoves g ncores p s (t ∷ ts) moves (inl (opens, wait)) = (0, t, refl, moves t opens)
OneOpens-OneMoves g ncores p s (t ∷ ts) moves (inr (waits, rest)) =
    let (i, u, at, m) = OneOpens-OneMoves g ncores p s ts moves rest in (suc i, u, at, m)

pub Reached-OneMoves :
    (ncores g : ℕ) (s : Shared) (ts : List Thread) → Reached ncores g s ts → OneMoves ncores s ts
Reached-OneMoves ncores g s ts (size, sense, inl (gather, counted, room)) =
    gather-OneMoves g ncores s ts gather sense (omega (arith, size, counted, room))
Reached-OneMoves ncores g s ts (size, sense, inr (inl opens)) =
    OneOpens-OneMoves g ncores last s ts (last-Moves g ncores s) opens
Reached-OneMoves ncores g s ts (size, sense, inr (inr (opens, zeroed))) =
    OneOpens-OneMoves g ncores resetting s ts (resetting-Moves g ncores s) opens

-- However `ncores` threads that call `barrier` again and again have been interleaved, they are not stuck: there is one
-- among them whose next action takes it on.
run_barrier-OneMoves :
    (ncores : ℕ) (order : List ℕ)
    → 0 < ncores
    → let (s, ts) = run_barrier ncores order new_shared (replicate ncores new_thread) in
      OneMoves ncores s ts
run_barrier-OneMoves ncores order some_core =
    let threads = replicate ncores new_thread in
    let (s, ts) = run_barrier ncores order new_shared threads in
    let fresh = new_threads ncores in
    let (g, h) =
      run_barrier-Reached ncores 0 order new_shared threads some_core
        (length-replicate ncores new_thread, refl, inl (fresh.0, fresh.1, some_core)) in
    Reached-OneMoves ncores g s ts h
