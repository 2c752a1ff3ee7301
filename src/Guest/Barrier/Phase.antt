-- ===== src/Guest/Barrier/Phase.antt =====
-- Generations of the threads of `barrier` in benchmarks/common/util.h, and who has arrived in one.
use arc_tests.Prelude.{
  ℕ, zero, suc, ◌+◌, ◌≤◌, ◌≡◌, ◌≢◌, ◌⊎◌, inl, inr, ap, arith, Bool, true, false, not, ◌==◌,
  if◌then◌else◌, List, [], ◌∷◌, length,
}
use arc_tests.Guest.Barrier.{Place, outside, flipped, waiting, last, resetting, Thread}

-- The sense of a generation: the number of barriers that have opened.
abbrev pub parity : ℕ → Bool
parity zero = false
parity (suc g) = not (parity g)

-- While generation `g` gathers: a thread has passed `g` barriers, and is outside, on its way, or in the loop; or it is still
-- in the loop of the barrier before.
abbrev pub GathersAt : ℕ → Place → Bool → ℕ → Type 0
GathersAt g outside b n = (n ≡ g) × (b ≡ parity g)
GathersAt g flipped b n = (n ≡ g) × (b ≡ parity (suc g))
GathersAt g waiting b n = ((n ≡ g) × (b ≡ parity (suc g))) ⊎ ((suc n ≡ g) × (b ≡ parity g))
GathersAt g last b n = ⊥
GathersAt g resetting b n = ⊥

abbrev pub Gathers : ℕ → Thread → Type 0
Gathers g t = GathersAt g t.place t.threadsense t.passed

abbrev pub AllGather : ℕ → List Thread → Type 0
AllGather g [] = Unit
AllGather g (t ∷ ts) = Gathers g t × AllGather g ts

-- Whether a thread has arrived in generation `g` and waits.
abbrev pub arrived_at : ℕ → Place → ℕ → ℕ
arrived_at g outside n = 0
arrived_at g flipped n = 0
arrived_at g waiting n = if n == g then 1 else 0
arrived_at g last n = 0
arrived_at g resetting n = 0

abbrev pub arrived : ℕ → Thread → ℕ
arrived g t = arrived_at g t.place t.passed

unfoldable pub arrivals : ℕ → List Thread → ℕ
arrivals g [] = 0
arrivals g (t ∷ ts) = arrived g t + arrivals g ts

-- A thread that has arrived, in a generation that is complete.
abbrev pub WaitsAt : ℕ → Place → Bool → ℕ → Type 0
WaitsAt g outside b n = ⊥
WaitsAt g flipped b n = ⊥
WaitsAt g waiting b n = (n ≡ g) × (b ≡ parity (suc g))
WaitsAt g last b n = ⊥
WaitsAt g resetting b n = ⊥

abbrev pub Waits : ℕ → Thread → Type 0
Waits g t = WaitsAt g t.place t.threadsense t.passed

abbrev pub AllWait : ℕ → List Thread → Type 0
AllWait g [] = Unit
AllWait g (t ∷ ts) = Waits g t × AllWait g ts

-- The thread that opens the barrier, at one of its two places.
abbrev pub Opens : ℕ → Place → Thread → Type 0
Opens g p t = (t.place ≡ p) × (t.passed ≡ g) × (t.threadsense ≡ parity (suc g))

-- One thread opens, and the others wait.
abbrev pub OneOpens : ℕ → Place → List Thread → Type 0
OneOpens g p [] = ⊥
OneOpens g p (t ∷ ts) = (Opens g p t × AllWait g ts) ⊎ (Waits g t × OneOpens g p ts)

-- One thread opens, and the others gather.
abbrev pub OneArrives : ℕ → List Thread → Type 0
OneArrives g [] = ⊥
OneArrives g (t ∷ ts) = (Opens g last t × AllGather g ts) ⊎ (Gathers g t × OneArrives g ts)

pub not_ne : (b : Bool) → not b ≢ b
not_ne false e = ground arith
not_ne true e = ground arith

-- A thread by what it is made of.
abbrev pub made : Place → Bool → ℕ → Thread
made p b k = record { place = p; threadsense = b; passed = k }

pub arrived_at-le : (g : ℕ) (p : Place) (k : ℕ) → arrived_at g p k ≤ 1
arrived_at-le g outside k = omega arith
arrived_at-le g flipped k = omega arith
arrived_at-le g waiting k = ground arith
arrived_at-le g last k = omega arith
arrived_at-le g resetting k = omega arith

arrivals-le : (g : ℕ) (ts : List Thread) → arrivals g ts ≤ length ts
unfolding arrivals
arrivals-le g [] = omega arith
arrivals-le g (t ∷ ts) = omega (arith, arrived_at-le g t.place t.passed, arrivals-le g ts)

-- A thread that gathers and has arrived waits.
Gathers-Waits :
    (g : ℕ) (p : Place) (b : Bool) (k : ℕ)
    → GathersAt g p b k
    → arrived_at g p k ≡ 1
    → WaitsAt g p b k
Gathers-Waits g outside b k h e = absurd (omega (arith, e))
Gathers-Waits g flipped b k h e = absurd (omega (arith, e))
Gathers-Waits g waiting b k (inl here) e = here
Gathers-Waits g waiting b k (inr before) e = absurd (ground (arith, before.0, e))
Gathers-Waits g last b k h e = absurd h
Gathers-Waits g resetting b k h e = absurd h

-- If all have arrived, all wait.
AllGather-AllWait :
    (g : ℕ) (ts : List Thread) → AllGather g ts → arrivals g ts ≡ length ts → AllWait g ts
unfolding arrivals
AllGather-AllWait g [] h e = tt
AllGather-AllWait g (t ∷ ts) h e =
    let le = arrived_at-le g t.place t.passed in
    let rest = arrivals-le g ts in
    (
      Gathers-Waits g t.place t.threadsense t.passed h.0 (omega (arith, e, le, rest)),
      AllGather-AllWait g ts h.1 (omega (arith, e, le, rest)),
    )

-- The thread that opens does not count as one that has arrived.
arrived-Opens : (g : ℕ) (t : Thread) → Opens g last t → arrived g t ≡ 0
arrived-Opens g t h = ap (λ p. arrived_at g p t.passed) h.0

pub OneArrives-OneOpens :
    (g : ℕ) (ts : List Thread)
    → OneArrives g ts
    → arrivals g ts + 1 ≡ length ts
    → OneOpens g last ts
unfolding arrivals
OneArrives-OneOpens g [] h e = absurd h
OneArrives-OneOpens g (t ∷ ts) (inl (opens, rest)) e =
    let none_here = arrived-Opens g t opens in
    inl (opens, AllGather-AllWait g ts rest (omega (arith, none_here, e)))
OneArrives-OneOpens g (t ∷ ts) (inr (gathers, rest)) e =
    let le = arrived_at-le g t.place t.passed in
    let few = OneArrives-lt g ts rest in
    inr (
      Gathers-Waits g t.place t.threadsense t.passed gathers (omega (arith, e, le, few)),
      OneArrives-OneOpens g ts rest (omega (arith, e, le, few)),
    )
  where
    OneArrives-lt : (g : ℕ) (ts : List Thread) → OneArrives g ts → arrivals g ts + 1 ≤ length ts
    OneArrives-lt g [] h = absurd h
    OneArrives-lt g (t ∷ ts) (inl (opens, rest)) =
        omega (arith, arrived-Opens g t opens, arrivals-le g ts)
    OneArrives-lt g (t ∷ ts) (inr (gathers, rest)) =
        omega (arith, arrived_at-le g t.place t.passed, OneArrives-lt g ts rest)
