-- ===== src/Axi/Stores.antt =====
-- What a port does to the state behind its callbacks, and when it stops on an assertion.
use arc_tests.Prelude.{
  ◌≡◌, ◌<◌, ◌⊎◌, ◌↔◌, ◌==◌, refl, true, false, ◌&&◌, Option, none, some, List, [], ◌∷◌, ◌++◌, arith,
  Option-cases, inl, inr, ltb, bit_and, if◌then◌else◌,
}
use arc_tests.Axi.Cycle.{Turn, Log, Store, see, turn, run, transfers, run_nil, run_cons, turn_inv}
use arc_tests.Axi.Port.{
  AxiPort, Callbacks, present_read, present_ack, present_ready, handle_write, accept_read,
  accept_write, store, update_a, lane_mask, bool_eq,
}

module _ {S : Type 0} (fns : Callbacks S) where
  -- The stores of a list, one after the other.
  unfoldable pub store_all : S → List Store → Option S
  store_all s [] = some s
  store_all s ((addr, word, mask) ∷ rest) = elim (store fns s addr word mask) [
    | none ↦ none
    | some s' ↦ store_all s' rest
  ]

  -- The arguments of the call of `writeFn` that a beat makes.
  abbrev pub beat_store : AxiPort → Option S → Option S
  beat_store p none = none
  beat_store p (some s) =
      store fns s p.write_addr p.outputs.w_data
        (bit_and p.outputs.w_strb (lane_mask p.write_addr p.write_size))

  -- `update_a` stops on an assertion exactly if a beat arrives that is expected and either the
  -- write callback refuses it or its `last` mark is not that of the final beat.
  pub update_a-eq-none_iff :
      (s : S) (p : AxiPort)
      → (update_a fns s p ≡ none) ↔ (
          (p.outputs.w_valid ≡ true)
          × (0 < p.write_beats_left)
          × ((beat_store p (some s) ≡ none)
              ⊎ (bool_eq p.outputs.w_last (p.write_beats_left == 1) ≡ false)))
  unfolding update_a handle_write present_ack present_read
  update_a-eq-none_iff s p = ground arith

  pub update_a-store :
      (s : S) (p : AxiPort) {s' : S} {q : AxiPort}
      → update_a fns s p ≡ some (s', q)
      → (q.inputs.w_ready ≡ ltb 0 p.write_beats_left)
        × ((if p.outputs.w_valid && ltb 0 p.write_beats_left then beat_store p (some s) else some s)
            ≡ some s')
  unfolding update_a handle_write accept_write accept_read present_ready present_ack present_read
  update_a-store s p h = ground arith

  store_all-append :
      (s : S) (xs ys : List Store) (s₁ : S)
      → store_all s xs ≡ some s₁
      → store_all s (xs ++ ys) ≡ store_all s₁ ys
  unfolding store_all
  store_all-append s [] ys s₁ h = ground arith
  store_all-append s ((addr, word, mask) ∷ xs) ys s₁ h =
      elim (Option-cases (store fns s addr word mask)) [
        | inl e ↦ absurd (ground arith)
        | inr (s₂, e) ↦ ground (arith, store_all-append s₂ xs ys s₁)
      ]

  turn-stores :
      (s : S) (p : AxiPort) (t : Turn) {s' : S} {m q : AxiPort}
      → turn fns s p t ≡ some (s', m, q)
      → store_all s (transfers t p m).stores ≡ some s'
  unfolding store_all
  turn-stores s p (a, b) h =
      let (went, ends) = turn_inv fns s p a b h in ground (arith, update_a-store s (see a p) went)

  -- Over any number of turns, the state behind the callbacks changes only by the logged stores: applied in order to the state at the start,
  -- they give the state at the end.
  run-stores :
      (s : S) (p : AxiPort) (ts : List Turn) {s' : S} {q : AxiPort} {log : Log}
      → run fns s p ts ≡ some (s', q, log)
      → store_all s log.stores ≡ some s'
  run-stores s p [] h =
      let (same, _, none_log) = run_nil fns s p h in
      rw (← none_log, ← same) (unfold store_all in refl)
  run-stores s p (t ∷ ts) h =
      let (s₁, m, q₁, log₁, one, rest, joined) = run_cons fns s p t ts h in
      rw
        (
          ← joined,
          store_all-append s (transfers t p m).stores log₁.stores s₁ (turn-stores s p t one),
        )
        (run-stores s₁ q₁ ts rest)
