-- ===== src/Boom/Port.antt =====
-- `AxiPort::update_a` and `AxiPort::update_b` of boom/boom-main.cpp.
use arc_tests.Prelude.{
  Option-cases, inl, inr, ap, ◌∙◌, arith, ℕ, ◌+◌, ◌-◌, ◌%◌, ◌^◌, ◌≡◌, refl, true, false, not, ◌&&◌,
  Option, none, some, bit_and, ltb, ◌==◌, if◌then◌else◌, u32, u64, sub32, ◌<<<◌, ◌>>>◌,
}
use arc_tests.Axi.Port as Port
use arc_tests.Axi.Port.{
  AxiPort, Callbacks, bool_eq, accept_read, accept_write, present_ready, present_ack, read_data,
  present_read, store, handle_write, next_addr, lane_mask,
}

-- `((addr >> size) + 1) << size`, on 64 bits.
abbrev bump : ℕ → ℕ → ℕ
bump addr size = u64 (u64 ((addr >>> size) + 1) <<< size)

module _ {S : Type 0} (fns : Callbacks S) where
  -- Up to "Present write acknowledge."
  unfoldable pub present : S → AxiPort → AxiPort
  present s p =
      let word : ℕ = elim fns.read_fn [ none ↦ 0x1050007310500073 | some f ↦ f s p.read_addr 0 ] in
      let i₀ = record p.inputs {
        r_valid = false;
        r_id = 0;
        r_data = 0;
        r_resp = 0;
        r_last = false;
      } in
      let i₁ =
        if ltb 0 p.read_beats_left
        then record i₀ {
          r_valid = true;
          r_id = p.read_id;
          r_data = word;
          r_last = p.read_beats_left == 1;
        }
        else i₀ in
      let i₂ = record i₁ { b_valid = false; b_id = 0; b_resp = 0 } in
      record p {
        inputs =
            if p.write_beats_left == 0 && not p.write_acked
            then record i₂ { b_valid = true; b_id = p.write_id }
            else i₂;
      }

  -- "Handle write data." An assertion that fails gives `none`.
  unfoldable pub take_beat : S → AxiPort → Option (S × AxiPort)
  take_beat s p =
      let q = record p { inputs = record p.inputs { w_ready = ltb 0 p.write_beats_left } } in
      let strb = bit_and q.outputs.w_strb ((2 ^ (2 ^ q.write_size) - 1) <<< (q.write_addr % 8)) in
      let stored : Option S = elim fns.write_fn [
        | none ↦ some s
        | some f ↦ f s q.write_addr q.outputs.w_data strb
      ] in
      if q.outputs.w_valid && q.inputs.w_ready
      then (elim stored [
        | none ↦ none
        | some s' ↦
            if bool_eq q.outputs.w_last (q.write_beats_left == 1)
            then some (
              s',
              record q {
                write_beats_left = sub32 q.write_beats_left 1;
                write_addr = bump q.write_addr q.write_size;
              },
            )
            else none
      ])
      else some (s, q)

-- From the assignment of `aw_ready` on.
unfoldable pub accept : AxiPort → AxiPort
accept p =
    let out = p.outputs in
    let aw_ready = p.write_beats_left == 0 && p.write_acked in
    let ar_ready = p.read_beats_left == 0 in
    let p₁ = record p { inputs = record p.inputs { aw_ready = aw_ready; ar_ready = ar_ready } } in
    let p₂ =
      if out.ar_valid && ar_ready
      then record p₁ {
        read_beats_left = u32 (out.ar_len + 1);
        read_id = out.ar_id;
        read_addr = out.ar_addr;
        read_size = out.ar_size;
      }
      else p₁ in
    if out.aw_valid && aw_ready
    then record p₂ {
      write_beats_left = u32 (out.aw_len + 1);
      write_id = out.aw_id;
      write_addr = out.aw_addr;
      write_size = out.aw_size;
      write_acked = false;
    }
    else p₂

unfoldable pub update_a : {S : Type 0} → Callbacks S → S → AxiPort → Option (S × AxiPort)
update_a fns s p = elim (take_beat fns s (present fns s p)) [
  | none ↦ none
  | some (s', q) ↦ some (s', accept q)
]

unfoldable pub update_b : AxiPort → AxiPort
update_b p =
    let p₁ =
      if p.inputs.r_valid && p.outputs.r_ready
      then record p {
        read_beats_left = sub32 p.read_beats_left 1;
        read_addr = bump p.read_addr p.read_size;
      }
      else p in
    record p₁ {
      write_acked = if p.inputs.b_valid && p.outputs.b_ready then true else p₁.write_acked;
    }

module _ {S : Type 0} (fns : Callbacks S) where
  present_same : (s : S) (p : AxiPort) → present fns s p ≡ present_ack (present_read fns s p)
  unfolding present present_ack present_read read_data
  present_same s p = ground (arith)

  take_beat_same : (s : S) (p : AxiPort) → take_beat fns s p ≡ handle_write fns s p
  unfolding take_beat handle_write store next_addr lane_mask
  take_beat_same s p = refl

  accept_same : (p : AxiPort) → accept p ≡ accept_write (accept_read (present_ready p))
  unfolding accept accept_write accept_read present_ready
  accept_same p = ground (arith)

  -- The port answers as that of the Rocket driver does.
  pub update_a_same : (s : S) (p : AxiPort) → update_a fns s p ≡ Port.update_a fns s p
  unfolding update_a Port.update_a
  update_a_same s p =
      let presented = present_ack (present_read fns s p) in
      let same : take_beat fns s (present fns s p) ≡ handle_write fns s presented =
        ap (take_beat fns s) (present_same s p) ∙ take_beat_same s presented in
      elim (Option-cases (handle_write fns s presented)) [
        | inl none_left ↦ ground (arith, same, none_left)
        | inr ((s', q), one) ↦ ground (arith, same, one, accept_same q)
      ]

pub update_b_same : (p : AxiPort) → update_b p ≡ Port.update_b p
unfolding update_b Port.update_b next_addr
update_b_same p = ground arith
