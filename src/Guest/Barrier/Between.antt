-- ===== src/Guest/Barrier/Between.antt =====
-- How often threads have begun and passed `barrier` of benchmarks/common/util.h.
use arc_tests.Prelude.{
  ℕ, zero, suc, ◌≤◌, ◌≡◌, inl, inr, arith, Bool, List, [], ◌∷◌, get_elem?, some,
}
use arc_tests.Guest.Barrier.{Place, outside, flipped, waiting, last, resetting, Thread, begun}
use arc_tests.Guest.Barrier.Phase.{GathersAt, AllGather, WaitsAt, AllWait, Opens, OneOpens, made}

-- In generation `g` a thread has passed at most `g` barriers, and begun at least `g`.
abbrev pub Between : ℕ → Thread → Type 0
Between g t = (t.passed ≤ g) × (g ≤ begun t)

Gathers-Between :
    (g : ℕ) (p : Place) (b : Bool) (k : ℕ) → GathersAt g p b k → Between g (made p b k)
Gathers-Between g outside b k h = (omega (arith, h.0), omega (arith, h.0))
Gathers-Between g flipped b k h = (omega (arith, h.0), omega (arith, h.0))
Gathers-Between g waiting b k (inl h) = (omega (arith, h.0), omega (arith, h.0))
Gathers-Between g waiting b k (inr h) = (omega (arith, h.0), omega (arith, h.0))
Gathers-Between g last b k h = absurd h
Gathers-Between g resetting b k h = absurd h

Waits-Between : (g : ℕ) (p : Place) (b : Bool) (k : ℕ) → WaitsAt g p b k → Between g (made p b k)
Waits-Between g outside b k h = absurd h
Waits-Between g flipped b k h = absurd h
Waits-Between g waiting b k h = (omega (arith, h.0), omega (arith, h.0))
Waits-Between g last b k h = absurd h
Waits-Between g resetting b k h = absurd h

Opens-Between : (g : ℕ) (p : Place) (t : Thread) → Opens g p t → Between g t
Opens-Between g p t h = (omega (arith, h.1), omega (arith, h.1))

pub AllGather-Between :
    (g i : ℕ) (ts : List Thread) (t : Thread)
    → AllGather g ts
    → get_elem? ts i ≡ some t
    → Between g t
AllGather-Between g i [] t h e = absurd (ground (arith, e))
AllGather-Between g zero (u ∷ ts) t h e =
    let same : u ≡ t = ground (arith, e) in
    rw (← same) (Gathers-Between g u.place u.threadsense u.passed h.0)
AllGather-Between g (suc i) (u ∷ ts) t h e = AllGather-Between g i ts t h.1 e

AllWait-Between :
    (g i : ℕ) (ts : List Thread) (t : Thread) → AllWait g ts → get_elem? ts i ≡ some t → Between g t
AllWait-Between g i [] t h e = absurd (ground (arith, e))
AllWait-Between g zero (u ∷ ts) t h e =
    let same : u ≡ t = ground (arith, e) in
    rw (← same) (Waits-Between g u.place u.threadsense u.passed h.0)
AllWait-Between g (suc i) (u ∷ ts) t h e = AllWait-Between g i ts t h.1 e

pub OneOpens-Between :
    (g i : ℕ) (p : Place) (ts : List Thread) (t : Thread)
    → OneOpens g p ts
    → get_elem? ts i ≡ some t
    → Between g t
OneOpens-Between g i p [] t h e = absurd h
OneOpens-Between g zero p (u ∷ ts) t (inl (opens, wait)) e =
    let same : u ≡ t = ground (arith, e) in rw (← same) (Opens-Between g p u opens)
OneOpens-Between g zero p (u ∷ ts) t (inr (waits, rest)) e =
    let same : u ≡ t = ground (arith, e) in
    rw (← same) (Waits-Between g u.place u.threadsense u.passed waits)
OneOpens-Between g (suc i) p (u ∷ ts) t (inl (opens, wait)) e = AllWait-Between g i ts t wait e
OneOpens-Between g (suc i) p (u ∷ ts) t (inr (waits, rest)) e = OneOpens-Between g i p ts t rest e
