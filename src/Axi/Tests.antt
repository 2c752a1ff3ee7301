-- ===== src/Axi/Tests.antt =====
-- Runs of the port, and the theorems at such runs.
use arc_tests.Prelude.{ℕ, ◌≡◌, refl, inr, true, false, some, List, [], ◌∷◌, ◌++◌, arith}
use arc_tests.Axi.{AxiOutputs}
use arc_tests.Axi.Burst.{beats_from, incr_addr}
use arc_tests.Axi.Port.{
  no_outputs, idle, AxiPort, Callbacks, update_a, update_b, lane_mask, next_addr, handle_write,
  accept_write, accept_read, present_ready, present_ack, present_read, read_data, store,
}
use arc_tests.Axi.Cycle.{Turn, Log, AllAxi, IsValid, run, turn}
use arc_tests.Axi.Reads.{owed}
use arc_tests.Axi.Writes.{expected, unacked}
use arc_tests.Axi.Conserve.{run-reads, run-writes}

-- The state is the last word written; a read gives the address.
abbrev echo : Callbacks ℕ
echo = record { read_fn = some (λ s addr d. addr); write_fn = some (λ s addr word mask. some word) }

-- A burst of two reads, and one of a single write.
abbrev asks : AxiOutputs
asks = record no_outputs {
  ar_valid = true;
  ar_id = 3;
  ar_addr = 0x104;
  ar_len = 1;
  ar_size = 3;
  aw_valid = true;
  aw_id = 5;
  aw_addr = 0x200;
  aw_len = 0;
  aw_size = 3;
}

abbrev sends : AxiOutputs
sends = record no_outputs {
  w_valid = true;
  w_data = 77;
  w_strb = 0xff;
  w_last = true;
  r_ready = true;
  b_ready = true;
}

-- The second turn stalls the read.
abbrev script : List Turn
script = (asks, asks) ∷ (sends, no_outputs) ∷ (no_outputs, sends) ∷ (no_outputs, sends) ∷ []

abbrev script_log : Log
script_log = record {
  reads =
      record { id = 3; addr = 0x104; last = false }
      ∷ record { id = 3; addr = 0x108; last = true }
      ∷ [];
  read_bursts =
      record { id = 3; addr = 0x104; last = false }
      ∷ record { id = 3; addr = 0x108; last = true }
      ∷ [];
  writes = record { id = 5; addr = 0x200; last = true } ∷ [];
  write_bursts = record { id = 5; addr = 0x200; last = true } ∷ [];
  stores = (0x200, 77, 0xff) ∷ [];
  acks = 5 ∷ [];
  ack_ids = 5 ∷ [];
}

abbrev final : AxiPort
final = record {
  inputs = record {
    aw_ready = true;
    w_ready = false;
    b_valid = false;
    b_id = 0;
    b_resp = 0;
    ar_ready = false;
    r_valid = true;
    r_id = 3;
    r_data = 0x108;
    r_resp = 0;
    r_last = true;
  };
  outputs = sends;
  read_beats_left = 0;
  read_id = 3;
  read_addr = 0x110;
  read_size = 3;
  write_beats_left = 0;
  write_id = 5;
  write_addr = 0x208;
  write_size = 3;
  write_acked = true;
}

script_runs : run echo 0 idle script ≡ some (77, final, script_log)
unfolding run turn update_a update_b handle_write accept_write accept_read present_ready present_ack
    present_read read_data store next_addr lane_mask beats_from incr_addr
script_runs = refl

idle-IsValid : IsValid idle
idle-IsValid = record { reads = omega arith; writes = omega arith; acked = inr refl }

script-AllAxi : AllAxi script
script-AllAxi = omega arith

run-reads_example : script_log.reads ++ owed final ≡ owed idle ++ script_log.read_bursts
run-reads_example = run-reads echo 0 idle script idle-IsValid script-AllAxi script_runs

run-writes_example :
    (script_log.writes ++ expected final ≡ expected idle ++ script_log.write_bursts)
    × (script_log.acks ++ unacked final ≡ unacked idle ++ script_log.ack_ids)
run-writes_example = run-writes echo 0 idle script idle-IsValid script-AllAxi script_runs
