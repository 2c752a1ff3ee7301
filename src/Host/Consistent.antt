-- ===== src/Host/Consistent.antt =====
-- The port of rocket/rocket-main.cpp with plain memory behind it, as the design sees it: the beats that carry data, in
-- the order in which they pass, against a memory of words.
mod Tests
use arc_tests.Prelude.{
  ℕ, ◌*◌, ◌/◌, ◌≡◌, ◌&&◌, none, some, Option-cases, Bool-cases, inl, inr, arith, ◌==◌, ltb,
  if◌then◌else◌, List, [], ◌∷◌, ◌++◌, bit_and, ap, ◌∙◌, sym, some,
}
use mathlib.Core.Path.{fun_ext, subst}
use arc_tests.Axi.{AxiOutputs}
use arc_tests.Axi.Cycle.{Turn, see, turn, turn_inv, when}
use arc_tests.Axi.Port.{AxiPort, Callbacks, read_data, store, lane_mask, wfi}
use arc_tests.Axi.Reads.{update_a-Shown}
use arc_tests.Axi.Stores.{beat_store, update_a-store}
use arc_tests.Host.Device.{Host, mem_read, mem_write, mem_port}
use arc_tests.Host.Memory.{word_of}

-- A beat that the design takes, or one that it gives: the address, and the data.
pub data Event : Type 0 where
  read_beat : ℕ → ℕ → Event
  write_beat : ℕ → ℕ → Event

-- The beats of the turn that took the port `p` to `m` by `update_a`.
abbrev pub events : Turn → AxiPort → AxiPort → List Event
events (a, b) p m =
    when (m.inputs.r_valid && b.r_ready) (read_beat m.read_addr m.inputs.r_data ∷ [])
    ++ when (a.w_valid && m.inputs.w_ready) (write_beat p.write_addr a.w_data ∷ [])

module _ {S : Type 0} (fns : Callbacks S) where
  -- The beats of a run of the loop, up to its end or to an assertion that fails.
  unfoldable pub trace : S → AxiPort → List Turn → List Event
  trace s p [] = []
  trace s p (t ∷ ts) = elim (turn fns s p t) [
    | none ↦ []
    | some (s', m, q) ↦ events t p m ++ trace s' q ts
  ]

  trace_stop :
      (s : S) (p : AxiPort) (t : Turn) (ts : List Turn)
      → turn fns s p t ≡ none
      → trace s p (t ∷ ts) ≡ []
  unfolding trace
  trace_stop s p t ts e = ground (arith, e)

  trace_go :
      (s : S) (p : AxiPort) (t : Turn) (ts : List Turn) {s' : S} {m q : AxiPort}
      → turn fns s p t ≡ some (s', m, q)
      → trace s p (t ∷ ts) ≡ events t p m ++ trace s' q ts
  unfolding trace
  trace_go s p t ts e = ground (arith, e)

-- A memory of words, each under its number, serves these beats in this order.
abbrev pub Serves : (ℕ → ℕ) → List Event → Type 0
Serves words [] = Unit
Serves words (read_beat addr word ∷ rest) = (word ≡ words (addr / 8)) × Serves words rest
Serves words (write_beat addr word ∷ rest) =
    Serves (λ n. if n == addr / 8 then word else words n) rest

-- What the words of the driver's memory hold; a word that is missing reads as two `wfi` instructions.
abbrev pub words_of : Host → ℕ → ℕ
words_of h n = mem_read h (n * 8) 0

mem_read-words_of : (h : Host) (addr : ℕ) → mem_read h addr 0 ≡ words_of h (addr / 8)
unfolding mem_read
mem_read-words_of h addr =
    let same : word_of addr ≡ word_of (addr / 8 * 8) = omega arith in
    ap (λ key. elim (h.memory key) [ none ↦ wfi | some w ↦ w ]) same

-- A store that is accepted writes the word that holds its address.
words_of-mem_write :
    (h : Host) (addr word mask : ℕ) {h' : Host}
    → mem_write h addr word mask ≡ some h'
    → (n : ℕ) → words_of h' n ≡ (if n == addr / 8 then word else words_of h n)
unfolding mem_write mem_read
words_of-mem_write h addr word mask e n = ground (arith, e)

-- The store of a turn, if there is one.
write_turn :
    (h : Host) (p m : AxiPort) (a : AxiOutputs) (rest : List Event) {h' : Host}
    → m.inputs.w_ready ≡ ltb 0 p.write_beats_left
    → (if a.w_valid && ltb 0 p.write_beats_left
        then beat_store mem_port (see a p) (some h)
        else some h)
      ≡ some h'
    → Serves (words_of h') rest
    → Serves
        (words_of h)
        (when (a.w_valid && m.inputs.w_ready) (write_beat p.write_addr a.w_data ∷ []) ++ rest)
unfolding store
write_turn h p m a rest {h' = h'} ready stored served =
    elim (Bool-cases (a.w_valid && ltb 0 p.write_beats_left)) [
      | inl one ↦
          let mask = bit_and a.w_strb (lane_mask p.write_addr p.write_size) in
          let wrote : mem_write h p.write_addr a.w_data mask ≡ some h' =
            ground (arith, one, stored) in
          rw (ready, one)
            (subst (λ words. Serves words rest)
              (fun_ext (words_of-mem_write h p.write_addr a.w_data mask wrote)) served)
      | inr other ↦
          let same : h' ≡ h = ground (arith, other, stored) in
          rw (ready, other) (subst (λ g. Serves (words_of g) rest) same served)
    ]

one_turn :
    (h : Host) (p m : AxiPort) (a b : AxiOutputs) (rest : List Event) {h' : Host} {q : AxiPort}
    → turn mem_port h p (a, b) ≡ some (h', m, q)
    → Serves (words_of h') rest
    → Serves (words_of h) (events (a, b) p m ++ rest)
unfolding read_data
one_turn h p m a b rest e served =
    let went = (turn_inv mem_port h p a b e).0 in
    let shown = update_a-Shown mem_port h (see a p) went in
    let (ready, stored) = update_a-store mem_port h (see a p) went in
    let writes = write_turn h p m a rest ready stored served in
    elim (Bool-cases (m.inputs.r_valid && b.r_ready)) [
      | inr idle ↦ rw idle writes
      | inl taken ↦
          let addr : m.read_addr ≡ p.read_addr =
            ground (arith, taken, shown.valid, shown.next_addr) in
          let got : m.inputs.r_data ≡ mem_read h p.read_addr 0 =
            ground (arith, taken, shown.valid, shown.data_word) in
          rw taken (
            got ∙ mem_read-words_of h p.read_addr ∙ ap (λ x. words_of h (x / 8)) (sym addr),
            writes,
          )
    ]

-- Whatever the design does on this port, from any state of it, and while nothing is stored through the other port: the
-- port and the callbacks of plain memory serve the beats that pass as a memory of words does. Each beat that the design
-- takes carries the word that holds its address, as the last store to that word has left it, or as it was at the start;
-- up to an assertion that fails, if there is one.
pub trace-Serves :
    (h : Host) (p : AxiPort) (ts : List Turn) → Serves (words_of h) (trace mem_port h p ts)
trace-Serves h p [] = unfold trace in tt
trace-Serves h p ((a, b) ∷ ts) = elim (Option-cases (turn mem_port h p (a, b))) [
  | inl stop ↦ rw (trace_stop mem_port h p (a, b) ts stop) tt
  | inr ((h', m, q), e) ↦
      rw (trace_go mem_port h p (a, b) ts e)
        (one_turn h p m a b (trace mem_port h' q ts) e (trace-Serves h' q ts))
]
