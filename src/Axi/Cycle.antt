-- ===== src/Axi/Cycle.antt =====
-- What one turn of the simulation loop of rocket/rocket-main.cpp does to one port: `update_a` on the
-- signals that the design shows before its evaluation, `update_b` on those that it shows after. The
-- transfers of a turn are read off the signals, where a `valid` meets its `ready`.
use arc_tests.Prelude.{
  ℕ, ◌+◌, ◌≤◌, ◌<◌, ◌≡◌, Bool, false, ◌&&◌, Option, none, some, List, [], ◌∷◌, ◌++◌, if◌then◌else◌,
  bit_and, ◌⊎◌, sym, inl, inr, Option-cases, arith,
}
use mathlib.Core.Path.{◌≡⟨◌⟩◌, ◌∎}
use mathlib.Core.List.{append_assoc}
use arc_tests.Axi.{AxiOutputs}
use arc_tests.Axi.Burst.{Beat, burst}
use arc_tests.Axi.Port.{AxiPort, Callbacks, update_a, update_b, lane_mask}

-- The signals of the design in one turn: before and after its evaluation.
abbrev pub Turn : Type 0
Turn = AxiOutputs × AxiOutputs

-- `port.out = model.get_mem()`.
abbrev pub see : AxiOutputs → AxiPort → AxiPort
see out p = record p { outputs = out }

-- A store handed to `writeFn`: address, data, mask.
abbrev pub Store : Type 0
Store = ℕ × ℕ × ℕ

-- The transfers of a turn, or of several.
pub record Log : Type 0 where
  pub reads : List Beat
  pub read_bursts : List Beat
  pub writes : List Beat
  pub write_bursts : List Beat
  pub stores : List Store
  pub acks : List ℕ
  pub ack_ids : List ℕ

abbrev pub no_transfer : Log
no_transfer = record {
  reads = [];
  read_bursts = [];
  writes = [];
  write_bursts = [];
  stores = [];
  acks = [];
  ack_ids = [];
}

abbrev pub join : Log → Log → Log
join x y = record {
  reads = x.reads ++ y.reads;
  read_bursts = x.read_bursts ++ y.read_bursts;
  writes = x.writes ++ y.writes;
  write_bursts = x.write_bursts ++ y.write_bursts;
  stores = x.stores ++ y.stores;
  acks = x.acks ++ y.acks;
  ack_ids = x.ack_ids ++ y.ack_ids;
}

abbrev pub when {ℓ} : {A : Type ℓ} → Bool → List A → List A
when b xs = if b then xs else []

-- The transfers of the turn that took the port `p` to `m` by `update_a`.
abbrev pub transfers : Turn → AxiPort → AxiPort → Log
transfers (a, b) p m = record {
  reads =
      when (m.inputs.r_valid && b.r_ready)
        (record { id = m.inputs.r_id; addr = m.read_addr; last = m.inputs.r_last } ∷ []);
  read_bursts =
      when (a.ar_valid && m.inputs.ar_ready) (burst a.ar_id a.ar_addr a.ar_size (a.ar_len + 1));
  writes =
      when (a.w_valid && m.inputs.w_ready)
        (record { id = p.write_id; addr = p.write_addr; last = a.w_last } ∷ []);
  write_bursts =
      when (a.aw_valid && m.inputs.aw_ready) (burst a.aw_id a.aw_addr a.aw_size (a.aw_len + 1));
  stores =
      when (a.w_valid && m.inputs.w_ready)
        ((p.write_addr, a.w_data, bit_and a.w_strb (lane_mask p.write_addr p.write_size)) ∷ []);
  acks = when (m.inputs.b_valid && b.b_ready) (m.inputs.b_id ∷ []);
  ack_ids = when (a.aw_valid && m.inputs.aw_ready) (a.aw_id ∷ []);
}

module _ {S : Type 0} (fns : Callbacks S) where
  -- The state, the port between `update_a` and `update_b`, and the port after the turn.
  unfoldable pub turn : S → AxiPort → Turn → Option (S × AxiPort × AxiPort)
  turn s p (a, b) = elim (update_a fns s (see a p)) [
    | none ↦ none
    | some (s', m) ↦ some (s', m, update_b (see b m))
  ]

  -- The turns of a simulation, with the log of their transfers. `none` is a failed assertion.
  unfoldable pub run : S → AxiPort → List Turn → Option (S × AxiPort × Log)
  run s p [] = some (s, p, no_transfer)
  run s p (t ∷ ts) = elim (turn s p t) [
    | none ↦ none
    | some (s', m, q) ↦ elim (run s' q ts) [
      | none ↦ none
      | some (s'', r, log) ↦ some (s'', r, join (transfers t p m) log)
    ]
  ]

-- The outputs that AXI allows: a burst has at most 256 beats.
pub record IsAxi (out : AxiOutputs) : Type 0 where
  pub ar_len : out.ar_len < 256
  pub aw_len : out.aw_len < 256

abbrev pub AllAxi : List Turn → Type 0
AllAxi [] = Unit
AllAxi ((a, b) ∷ ts) = IsAxi a × AllAxi ts

-- The registers of a port between two turns.
pub record IsValid (p : AxiPort) : Type 0 where
  pub reads : p.read_beats_left ≤ 256
  pub writes : p.write_beats_left ≤ 256
  pub acked : (p.write_acked ≡ false) ⊎ (p.write_beats_left ≡ 0)

module _ {S : Type 0} (fns : Callbacks S) where
  pub turn_inv :
      (s : S) (p : AxiPort) (a b : AxiOutputs) {s' : S} {m q : AxiPort}
      → turn fns s p (a, b) ≡ some (s', m, q)
      → (update_a fns s (see a p) ≡ some (s', m)) × (q ≡ update_b (see b m))
  unfolding turn
  turn_inv s p a b h = elim (Option-cases (update_a fns s (see a p))) [
    | inl e ↦ absurd (ground arith)
    | inr (r, e) ↦ ground arith
  ]

  pub run_nil :
      (s : S) (p : AxiPort) {s' : S} {q : AxiPort} {log : Log}
      → run fns s p [] ≡ some (s', q, log)
      → (s ≡ s') × (p ≡ q) × (no_transfer ≡ log)
  unfolding run
  run_nil s p h = ground arith

  -- A run that starts with a turn is that turn, followed by a run.
  pub run_cons :
      (s : S) (p : AxiPort) (t : Turn) (ts : List Turn) {s' : S} {q : AxiPort} {log : Log}
      → run fns s p (t ∷ ts) ≡ some (s', q, log)
      → (s₁ : S) × (m : AxiPort) × (q₁ : AxiPort) × (log₁ : Log) × (turn fns s p t
          ≡ some (s₁, m, q₁))
        × (run fns s₁ q₁ ts ≡ some (s', q, log₁))
        × (join (transfers t p m) log₁ ≡ log)
  unfolding run
  run_cons s p t ts h = elim (Option-cases (turn fns s p t)) [
    | inl e ↦ absurd (ground arith)
    | inr ((s₁, m, q₁), e) ↦ elim (Option-cases (run fns s₁ q₁ ts)) [
      | inl e' ↦ absurd (ground arith)
      | inr ((s₂, r, log₁), e') ↦ (s₁, m, q₁, log₁, e, ground arith, ground arith)
    ]
  ]

-- Queues compose: what one step takes and leaves, and what the next does.
pub queue_trans {ℓ} :
    {A : Type ℓ} (out₁ out₂ in₁ in₂ before mid after : List A)
    → out₁ ++ mid ≡ before ++ in₁
    → out₂ ++ after ≡ mid ++ in₂
    → (out₁ ++ out₂) ++ after ≡ before ++ (in₁ ++ in₂)
queue_trans out₁ out₂ in₁ in₂ before mid after one two =
    (out₁ ++ out₂) ++ after
    ≡⟨ append_assoc out₁ out₂ after ⟩ out₁ ++ (out₂ ++ after)
    ≡⟨ (rw two) ⟩ out₁ ++ (mid ++ in₂)
    ≡⟨ sym (append_assoc out₁ mid in₂) ⟩ (out₁ ++ mid) ++ in₂
    ≡⟨ (rw one) ⟩ (before ++ in₁) ++ in₂
    ≡⟨ append_assoc before in₁ in₂ ⟩ before ++ (in₁ ++ in₂) ∎

pub see-IsValid : (a : AxiOutputs) {p : AxiPort} → IsValid p → IsValid (see a p)
see-IsValid a v = record { reads = v.reads; writes = v.writes; acked = v.acked }
