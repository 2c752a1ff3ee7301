-- ===== src/Axi/Port.antt =====
-- `AxiPort` of rocket/rocket-main.cpp: one burst of reads and one of writes at a time, each beat
-- handed to the callbacks of the port.
use arc_tests.Prelude.{
  ℕ, ◌+◌, ◌-◌, ◌%◌, ◌^◌, Bool, true, false, not, ◌&&◌, Option, none, some, bit_and, ltb, ◌==◌,
  if◌then◌else◌, u32, u64, sub32, ◌<<<◌, ◌>>>◌,
}
use arc_tests.Axi.{AxiInputs, AxiOutputs}

-- `RESP_OKAY`, the only response that the port gives.
abbrev pub resp_okay : ℕ
resp_okay = 0

-- What the port reads where it has no `readFn`: two `wfi` instructions.
abbrev pub wfi : ℕ
wfi = 0x1050007310500073

-- The callbacks, over the state `S` that their closures share. `read_fn` gets the value that
-- `data` has before the call and returns the one that it has after it; no closure of the driver
-- writes to the state when it is read. `write_fn` returns `none`
-- where an assertion of the closure fails. An empty `std::function` is `none`.
pub record Callbacks (S : Type 0) : Type 0 where
  pub read_fn : Option (S → ℕ → ℕ → ℕ)
  pub write_fn : Option (S → ℕ → ℕ → ℕ → Option S)

pub record AxiPort : Type 0 where
  pub inputs : AxiInputs
  pub outputs : AxiOutputs
  pub read_beats_left : ℕ
  pub read_id : ℕ
  pub read_addr : ℕ
  pub read_size : ℕ
  pub write_beats_left : ℕ
  pub write_id : ℕ
  pub write_addr : ℕ
  pub write_size : ℕ
  pub write_acked : Bool

-- The ports before the first round; what the C++ leaves unset is 0 here, and false.
abbrev pub no_outputs : AxiOutputs
no_outputs = record {
  aw_valid = false;
  aw_id = 0;
  aw_addr = 0;
  aw_len = 0;
  aw_size = 0;
  w_valid = false;
  w_data = 0;
  w_strb = 0;
  w_last = false;
  b_ready = false;
  ar_valid = false;
  ar_id = 0;
  ar_addr = 0;
  ar_len = 0;
  ar_size = 0;
  r_ready = false;
}

abbrev pub no_inputs : AxiInputs
no_inputs = record {
  aw_ready = false;
  w_ready = false;
  b_valid = false;
  b_id = 0;
  b_resp = 0;
  ar_ready = false;
  r_valid = false;
  r_id = 0;
  r_data = 0;
  r_resp = 0;
  r_last = false;
}

abbrev pub idle : AxiPort
idle = record {
  inputs = no_inputs;
  outputs = no_outputs;
  read_beats_left = 0;
  read_id = 0;
  read_addr = 0;
  read_size = 0;
  write_beats_left = 0;
  write_id = 0;
  write_addr = 0;
  write_size = 0;
  write_acked = true;
}

-- The address of the next beat: up to the next multiple of the beat's size.
unfoldable pub next_addr : ℕ → ℕ → ℕ
next_addr addr size = u64 (u64 ((addr >>> size) + 1) <<< size)

-- The lanes that a beat of `2 ^ size` bytes at `addr` may write. The shifts are on `int`: defined
-- up to a size of 4.
unfoldable pub lane_mask : ℕ → ℕ → ℕ
lane_mask addr size = (2 ^ (2 ^ size) - 1) <<< (addr % 8)

abbrev pub bool_eq : Bool → Bool → Bool
bool_eq true b = b
bool_eq false b = not b

-- "Accept new reads."
unfoldable pub accept_read : AxiPort → AxiPort
accept_read p =
    let out = p.outputs in
    if out.ar_valid && p.inputs.ar_ready
    then record p {
      read_beats_left = u32 (out.ar_len + 1);
      read_id = out.ar_id;
      read_addr = out.ar_addr;
      read_size = out.ar_size;
    }
    else p

-- "Accept new writes."
unfoldable pub accept_write : AxiPort → AxiPort
accept_write p =
    let out = p.outputs in
    if out.aw_valid && p.inputs.aw_ready
    then record p {
      write_beats_left = u32 (out.aw_len + 1);
      write_id = out.aw_id;
      write_addr = out.aw_addr;
      write_size = out.aw_size;
      write_acked = false;
    }
    else p

-- The assignments of `aw_ready` and `ar_ready`.
unfoldable pub present_ready : AxiPort → AxiPort
present_ready p = record p {
  inputs = record p.inputs {
    aw_ready = p.write_beats_left == 0 && p.write_acked;
    ar_ready = p.read_beats_left == 0;
  };
}

-- "Present write acknowledge."
unfoldable pub present_ack : AxiPort → AxiPort
present_ack p =
    let idle = record p.inputs { b_valid = false; b_id = 0; b_resp = resp_okay } in
    let ack = record p.inputs { b_valid = true; b_id = p.write_id; b_resp = resp_okay } in
    record p { inputs = if p.write_beats_left == 0 && not p.write_acked then ack else idle }

module _ {S : Type 0} (fns : Callbacks S) where
  -- What the port reads at an address. `in.r_data` is 0 when `readFn` is called.
  unfoldable pub read_data : S → ℕ → ℕ
  read_data s addr = elim fns.read_fn [ none ↦ wfi | some f ↦ f s addr 0 ]

  -- "Present read data."
  unfoldable pub present_read : S → AxiPort → AxiPort
  present_read s p =
      let idle = record p.inputs {
        r_valid = false;
        r_id = 0;
        r_data = 0;
        r_resp = resp_okay;
        r_last = false;
      } in
      let beat = record p.inputs {
        r_valid = true;
        r_id = p.read_id;
        r_data = read_data s p.read_addr;
        r_resp = resp_okay;
        r_last = p.read_beats_left == 1;
      } in
      record p { inputs = if ltb 0 p.read_beats_left then beat else idle }

  -- The call of `writeFn`, if there is one.
  unfoldable pub store : S → ℕ → ℕ → ℕ → Option S
  store s addr word mask = elim fns.write_fn [ none ↦ some s | some f ↦ f s addr word mask ]

  -- "Handle write data." `none` is a failed assertion: in `writeFn`, or on `w_last`.
  unfoldable pub handle_write : S → AxiPort → Option (S × AxiPort)
  handle_write s p =
      let ready = ltb 0 p.write_beats_left in
      let q = record p { inputs = record p.inputs { w_ready = ready } } in
      let strb = bit_and q.outputs.w_strb (lane_mask q.write_addr q.write_size) in
      let next = record q {
        write_beats_left = sub32 q.write_beats_left 1;
        write_addr = next_addr q.write_addr q.write_size;
      } in
      if p.outputs.w_valid && ready
      then (elim (store s q.write_addr q.outputs.w_data strb) [
        | none ↦ none
        | some s' ↦
            if bool_eq p.outputs.w_last (p.write_beats_left == 1) then some (s', next) else none
      ])
      else some (s, q)

  unfoldable pub update_a : S → AxiPort → Option (S × AxiPort)
  update_a s p = elim (handle_write s (present_ack (present_read s p))) [
    | none ↦ none
    | some (s', q) ↦ some (s', accept_write (accept_read (present_ready q)))
  ]

unfoldable pub update_b : AxiPort → AxiPort
update_b p =
    let reads =
      if p.inputs.r_valid && p.outputs.r_ready
      then record p {
        read_beats_left = sub32 p.read_beats_left 1;
        read_addr = next_addr p.read_addr p.read_size;
      }
      else p in
    if p.inputs.b_valid && p.outputs.b_ready then record reads { write_acked = true } else reads
