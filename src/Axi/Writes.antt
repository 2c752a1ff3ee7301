-- ===== src/Axi/Writes.antt =====
-- The write side of a port: the beats that it still expects, the stores that it hands to its callback, and
-- the acknowledgement that it owes.
use arc_tests.Prelude.{
  ℕ, ◌+◌, ◌-◌, ◌≡◌, Bool, true, false, not, ◌&&◌, some, List, [], ◌∷◌, ◌++◌, ltb, ◌==◌,
  if◌then◌else◌, arith, u32,
}
use mathlib.Core.List.{append-nil}
use arc_tests.Axi.{AxiOutputs}
use arc_tests.Axi.Burst.{Beat, beats_from, burst, burst-pos}
use arc_tests.Axi.Cycle.{see, Turn, IsAxi, IsValid, turn, transfers, turn_inv, see-IsValid}
use arc_tests.Axi.Port.{
  AxiPort, Callbacks, present_read, present_ack, present_ready, handle_write, accept_read,
  accept_write, update_a, update_b, next_addr,
}

-- The beats that the port still expects.
abbrev pub expected : AxiPort → List Beat
expected p = burst p.write_id p.write_addr p.write_size p.write_beats_left

-- The acknowledgement that the design has not had.
abbrev pub unacked : AxiPort → List ℕ
unacked p = if p.write_acked then [] else p.write_id ∷ []

abbrev stores_beat : AxiPort → Bool
stores_beat p = p.outputs.w_valid && ltb 0 p.write_beats_left

-- What the write channels show after `update_a` took `p` to `q`, and where it leaves the registers.
pub record Written (p q : AxiPort) : Type 0 where
  pub ready : q.inputs.w_ready ≡ ltb 0 p.write_beats_left
  pub ack : q.inputs.b_valid ≡ (p.write_beats_left == 0 && not p.write_acked)
  pub ack_id :
      q.inputs.b_id ≡ (if p.write_beats_left == 0 && not p.write_acked then p.write_id else 0)
  pub idle : q.inputs.aw_ready ≡ p.write_acked
  pub last : stores_beat p ≡ true → p.outputs.w_last ≡ (p.write_beats_left == 1)
  pub left : q.write_beats_left ≡ (
      if p.outputs.aw_valid && p.write_acked
      then u32 (p.outputs.aw_len + 1)
      else if stores_beat p
      then p.write_beats_left - 1
      else p.write_beats_left)
  pub id :
      q.write_id ≡ (if p.outputs.aw_valid && p.write_acked then p.outputs.aw_id else p.write_id)
  pub addr : q.write_addr ≡ (
      if p.outputs.aw_valid && p.write_acked
      then p.outputs.aw_addr
      else if stores_beat p
      then next_addr p.write_addr p.write_size
      else p.write_addr)
  pub size :
      q.write_size
      ≡ (if p.outputs.aw_valid && p.write_acked then p.outputs.aw_size else p.write_size)
  pub acked : q.write_acked ≡ (if p.outputs.aw_valid && p.write_acked then false else p.write_acked)

module _ {S : Type 0} (fns : Callbacks S) where
  pub update_a-Written :
      (s : S) (p : AxiPort) {s' : S} {q : AxiPort}
      → IsValid p
      → update_a fns s p ≡ some (s', q)
      → Written p q
  unfolding update_a handle_write accept_write accept_read present_ready present_ack present_read
  update_a-Written s p v h = ground arith

-- A turn stores the beat at the head of the queue, and appends what it accepts.
Written-writes :
    (p m : AxiPort) (a b : AxiOutputs)
    → IsValid p
    → IsAxi a
    → Written (see a p) m
    → (transfers (a, b) p m).writes ++ expected (update_b (see b m))
      ≡ expected p ++ (transfers (a, b) p m).write_bursts
unfolding update_b beats_from
Written-writes p m a b v axi w = ground (
  arith,
  burst-pos p.write_id p.write_addr p.write_size p.write_beats_left,
  append-nil (expected p),
)

Written-acks :
    (p m : AxiPort) (a b : AxiOutputs)
    → IsValid p
    → Written (see a p) m
    → (transfers (a, b) p m).acks ++ unacked (update_b (see b m))
      ≡ unacked p ++ (transfers (a, b) p m).ack_ids
unfolding update_b
Written-acks p m a b v w = ground arith

module _ {S : Type 0} (fns : Callbacks S) where
  pub turn-writes :
      (s : S) (p : AxiPort) (t : Turn) {s' : S} {m q : AxiPort}
      → IsValid p
      → IsAxi t.0
      → turn fns s p t ≡ some (s', m, q)
      → (transfers t p m).writes ++ expected q ≡ expected p ++ (transfers t p m).write_bursts
  turn-writes s p (a, b) {m = m} v axi h =
      let (went, ends) = turn_inv fns s p a b h in
      rw ends
        (Written-writes p m a b v axi (update_a-Written fns s (see a p) (see-IsValid a v) went))

  pub turn-acks :
      (s : S) (p : AxiPort) (t : Turn) {s' : S} {m q : AxiPort}
      → IsValid p
      → IsAxi t.0
      → turn fns s p t ≡ some (s', m, q)
      → (transfers t p m).acks ++ unacked q ≡ unacked p ++ (transfers t p m).ack_ids
  turn-acks s p (a, b) {m = m} v axi h =
      let (went, ends) = turn_inv fns s p a b h in
      rw ends (Written-acks p m a b v (update_a-Written fns s (see a p) (see-IsValid a v) went))
