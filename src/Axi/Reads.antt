-- ===== src/Axi/Reads.antt =====
-- The read side of a port (`AxiPort` of rocket/rocket-main.cpp), seen as a queue of the beats of the accepted bursts.
use arc_tests.Prelude.{
  ℕ, ◌+◌, ◌≤◌, ◌≡◌, Bool, ◌&&◌, some, List, ◌++◌, ltb, ◌==◌, if◌then◌else◌, arith, u32,
  Option-cases, inl, inr,
}
use mathlib.Core.List.{append-nil}
use arc_tests.Axi.{AxiOutputs}
use arc_tests.Axi.Burst.{Beat, beats_from, burst, burst-pos}
use arc_tests.Axi.Cycle.{see, Turn, IsAxi, IsValid, turn, transfers, turn_inv}
use arc_tests.Axi.Port.{
  AxiPort, Callbacks, present_read, present_ack, present_ready, handle_write, accept_read,
  accept_write, read_data, update_a, update_b,
}

-- The beats that are still owed to the design.
abbrev pub owed : AxiPort → List Beat
owed p = burst p.read_id p.read_addr p.read_size p.read_beats_left

-- A new burst can be accepted: none is under way.
abbrev takes : AxiPort → Bool
takes p = p.read_beats_left == 0 && p.outputs.ar_valid

-- What the read channel shows after `update_a` took `p` to `q`, and where it leaves the registers.
pub record Shown (p : AxiPort) (word : ℕ) (q : AxiPort) : Type 0 where
  pub valid : q.inputs.r_valid ≡ ltb 0 p.read_beats_left
  pub id : q.inputs.r_id ≡ (if ltb 0 p.read_beats_left then p.read_id else 0)
  pub data_word : q.inputs.r_data ≡ (if ltb 0 p.read_beats_left then word else 0)
  pub last : q.inputs.r_last ≡ (p.read_beats_left == 1)
  pub ready : q.inputs.ar_ready ≡ (p.read_beats_left == 0)
  pub left : q.read_beats_left ≡ (if takes p then u32 (p.outputs.ar_len + 1) else p.read_beats_left)
  pub next_id : q.read_id ≡ (if takes p then p.outputs.ar_id else p.read_id)
  pub next_addr : q.read_addr ≡ (if takes p then p.outputs.ar_addr else p.read_addr)
  pub next_size : q.read_size ≡ (if takes p then p.outputs.ar_size else p.read_size)

module _ {S : Type 0} (fns : Callbacks S) where
  -- "Handle write data" leaves the read side alone.
  record SameReads (p q : AxiPort) : Type 0 where
    valid : q.inputs.r_valid ≡ p.inputs.r_valid
    id : q.inputs.r_id ≡ p.inputs.r_id
    data_word : q.inputs.r_data ≡ p.inputs.r_data
    last : q.inputs.r_last ≡ p.inputs.r_last
    left : q.read_beats_left ≡ p.read_beats_left
    id_kept : q.read_id ≡ p.read_id
    addr : q.read_addr ≡ p.read_addr
    size : q.read_size ≡ p.read_size
    outputs : q.outputs ≡ p.outputs

  handle_write-SameReads :
      (s : S) (p : AxiPort) {s' : S} {q : AxiPort}
      → handle_write fns s p ≡ some (s', q)
      → SameReads p q
  unfolding handle_write
  handle_write-SameReads s p h = ground arith

  -- `update_a` shows the next owed beat, with the data that the read callback gives for its address, holds it until it is taken, and accepts a
  -- new burst exactly if none is under way.
  pub update_a-Shown :
      (s : S) (p : AxiPort) {s' : S} {q : AxiPort}
      → update_a fns s p ≡ some (s', q)
      → Shown p (read_data fns s p.read_addr) q
  unfolding update_a accept_write accept_read present_ready present_ack present_read
  update_a-Shown s p h =
      elim (Option-cases (handle_write fns s (present_ack (present_read fns s p)))) [
        | inl e ↦ absurd (ground arith)
        | inr (r, e) ↦
            ground (arith, handle_write-SameReads s (present_ack (present_read fns s p)) e)
      ]

-- A turn moves beats from the head of the queue to the design, and appends what it accepts.
Shown-reads :
    (p m : AxiPort) (a b : AxiOutputs) (word : ℕ)
    → p.read_beats_left ≤ 256
    → IsAxi a
    → Shown (see a p) word m
    → (transfers (a, b) p m).reads ++ owed (update_b (see b m))
      ≡ owed p ++ (transfers (a, b) p m).read_bursts
unfolding update_b beats_from
Shown-reads p m a b word small axi shown =
    ground
      (arith, burst-pos p.read_id p.read_addr p.read_size p.read_beats_left, append-nil (owed p))

module _ {S : Type 0} (fns : Callbacks S) where
  pub turn-reads :
      (s : S) (p : AxiPort) (t : Turn) {s' : S} {m q : AxiPort}
      → IsValid p
      → IsAxi t.0
      → turn fns s p t ≡ some (s', m, q)
      → (transfers t p m).reads ++ owed q ≡ owed p ++ (transfers t p m).read_bursts
  turn-reads s p (a, b) {m = m} v axi h =
      let (went, ends) = turn_inv fns s p a b h in
      rw ends (
        Shown-reads p m a b (read_data fns s p.read_addr) v.reads axi
          (update_a-Shown fns s (see a p) went))
