-- ===== src/Axi/Conserve.antt =====
-- The channels of a port (`AxiPort` of rocket/rocket-main.cpp) over any number of turns.
use mathlib.Core.List.{append-nil}
use arc_tests.Prelude.{ℕ, ◌≡◌, sym, some, refl, List, [], ◌∷◌, ◌++◌}
use arc_tests.Axi.Cycle.{
  Turn, Log, no_transfer, join, IsAxi, AllAxi, IsValid, turn, run, transfers, run_nil, run_cons,
  queue_trans,
}
use arc_tests.Axi.Burst.{Beat}
use arc_tests.Axi.Port.{AxiPort, Callbacks}
use arc_tests.Axi.Reads.{owed, turn-reads}
use arc_tests.Axi.Writes.{expected, unacked, turn-writes, turn-acks}
use arc_tests.Axi.Valid.{turn-IsValid}

-- A queue of the port: what it holds, what a turn takes out, and what a turn puts in.
record Channel {ℓ} (A : Type ℓ) : Type ℓ where
  held : AxiPort → List A
  out : Log → List A
  into : Log → List A
  out_none : out no_transfer ≡ []
  into_none : into no_transfer ≡ []
  out_join : (x y : Log) → out (join x y) ≡ out x ++ out y
  into_join : (x y : Log) → into (join x y) ≡ into x ++ into y

module _ {ℓ} {S : Type 0} (fns : Callbacks S) {A : Type ℓ} (c : Channel A) where
  -- If a turn conserves the channel, so does a run.
  run_conserves :
      ((s : S) (p : AxiPort) (t : Turn) (s' : S) (m q : AxiPort)
        → IsValid p
        → IsAxi t.0
        → turn fns s p t ≡ some (s', m, q)
        → c.out (transfers t p m) ++ c.held q ≡ c.held p ++ c.into (transfers t p m))
      → (s : S) (p : AxiPort) (ts : List Turn) {s' : S} {q : AxiPort} {log : Log} → IsValid p
      → AllAxi ts
      → run fns s p ts ≡ some (s', q, log)
      → c.out log ++ c.held q ≡ c.held p ++ c.into log
  run_conserves step s p [] v axi h =
      let (_, same, none_log) = run_nil fns s p h in
      rw (← same, ← none_log, c.out_none, c.into_none) (sym (append-nil (c.held p)))
  run_conserves step s p (t ∷ ts) {q = q} v axi h =
      let (s₁, m, q₁, log₁, one, rest, joined) = run_cons fns s p t ts h in
      let first = step s p t s₁ m q₁ v axi.0 one in
      let later = run_conserves step s₁ q₁ ts (turn-IsValid fns s p t v axi.0 one) axi.1 rest in
      rw (← joined, c.out_join, c.into_join)
        (queue_trans (c.out (transfers t p m)) (c.out log₁) (c.into (transfers t p m)) (c.into log₁)
          (c.held p) (c.held q₁) (c.held q) first later)

abbrev read_channel : Channel Beat
read_channel = record {
  held = owed;
  out = λ log. log.reads;
  into = λ log. log.read_bursts;
  out_none = refl;
  into_none = refl;
  out_join = λ x y. refl;
  into_join = λ x y. refl;
}

abbrev write_channel : Channel Beat
write_channel = record {
  held = expected;
  out = λ log. log.writes;
  into = λ log. log.write_bursts;
  out_none = refl;
  into_none = refl;
  out_join = λ x y. refl;
  into_join = λ x y. refl;
}

abbrev ack_channel : Channel ℕ
ack_channel = record {
  held = unacked;
  out = λ log. log.acks;
  into = λ log. log.ack_ids;
  out_none = refl;
  into_none = refl;
  out_join = λ x y. refl;
  into_join = λ x y. refl;
}

module _ {S : Type 0} (fns : Callbacks S) where
  -- Over any number of turns, from registers in range and with an AXI design: the beats that the design took, followed by
  -- those still owed, are the beats owed at the start followed by the bursts that were accepted. No
  -- beat is lost, repeated or out of order, and each carries the id and the `last` mark of its burst and the address that
  -- AXI gives it in an incrementing one.
  pub run-reads :
      (s : S) (p : AxiPort) (ts : List Turn) {s' : S} {q : AxiPort} {log : Log}
      → IsValid p
      → AllAxi ts
      → run fns s p ts ≡ some (s', q, log)
      → log.reads ++ owed q ≡ owed p ++ log.read_bursts
  run-reads = run_conserves fns read_channel (λ s p t s' m q. turn-reads fns s p t)

  -- Over any number of turns, from registers in range and with an AXI design: the beats that were written, followed by those
  -- still expected, are the beats expected at the start followed by the bursts that were accepted, with ids, `last`
  -- marks and the addresses that AXI gives to incrementing bursts; and the acknowledgements given, followed by the one outstanding, if any, are the ids
  -- of the accepted bursts in order, behind the one outstanding at the start.
  pub run-writes :
      (s : S) (p : AxiPort) (ts : List Turn) {s' : S} {q : AxiPort} {log : Log}
      → IsValid p
      → AllAxi ts
      → run fns s p ts ≡ some (s', q, log)
      → (log.writes ++ expected q ≡ expected p ++ log.write_bursts)
        × (log.acks ++ unacked q ≡ unacked p ++ log.ack_ids)
  run-writes s p ts v axi h = (
    run_conserves fns write_channel (λ s p t s' m q. turn-writes fns s p t) s p ts v axi h,
    run_conserves fns ack_channel (λ s p t s' m q. turn-acks fns s p t) s p ts v axi h,
  )
