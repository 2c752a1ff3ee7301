-- ===== src/Guest/Startup.antt =====
-- How a benchmark starts and ends, and what it measures: `setStats`, `init_tls`, the weak `thread_entry` and `_init` of
-- benchmarks/common/syscalls.c. The program's `main` is a parameter.
pub mod Measure
pub mod Locals
pub mod Tests
use arc_tests.Prelude.{
  ℕ, zero, suc, ◌+◌, ◌-◌, ◌^◌, Option, none, some, Bool, true, false, ◌==◌, if◌then◌else◌, List, [],
  ◌∷◌, codes, sub64,
}
use arc_tests.Guest.Memory.{Mem}
use arc_tests.Guest.Copy.{memcpy, memset}
use arc_tests.Guest.Print.{sprintf}
use arc_tests.Guest.Stdio.{Output, printstr, exit}
use arc_tests.Guest.Syscall.{Bus, ◌>>=◌}

pub data Counter : Type 0 where
  mcycle minstret : Counter

-- `counters` and `counter_names`, under their indices. A name that is not set is `none`.
pub record Stats : Type 0 where
  pub counters : ℕ → ℕ
  pub counter_names : ℕ → Option Counter

abbrev pub new_stats : Stats
new_stats = record { counters = λ i. 0; counter_names = λ i. none }

abbrev pub put {ℓ} : {A : Type ℓ} → (ℕ → A) → ℕ → A → ℕ → A
put array i a j = if j == i then a else array j

-- `READ_CTR` at index `i`, where `csr` is what the register gives.
unfoldable pub read_ctr : Bool → Counter → ℕ → ℕ → Stats → Stats
read_ctr true name csr i stats = record stats { counters = put stats.counters i csr }
read_ctr false name csr i stats = record stats {
  counters = put stats.counters i (sub64 csr (stats.counters i));
  counter_names = put stats.counter_names i (some name);
}

-- The two registers are read at `cycle` and at `instret`.
unfoldable pub set_stats : Bool → ℕ → ℕ → Stats → Stats
set_stats enable cycle instret stats =
    read_ctr enable minstret instret 1 (read_ctr enable mcycle cycle 0 stats)

-- What the linker defines, and the thread pointer.
pub record Tls : Type 0 where
  pub thread_pointer : ℕ
  pub tdata_begin : ℕ
  pub tdata_end : ℕ
  pub tbss_end : ℕ

unfoldable pub init_tls : ℕ → Tls → Mem → Option Mem
init_tls fuel tls mem =
    let tdata_size = tls.tdata_end - tls.tdata_begin in
    let tbss_size = tls.tbss_end - tls.tdata_end in
    memcpy fuel mem tls.thread_pointer tls.tdata_begin tdata_size >>= λ mem'.
    memset fuel mem' (tls.thread_pointer + tdata_size) 0 tbss_size

-- `while (cid != 0);`: a core other than 0 never comes back.
unfoldable pub thread_entry : ℕ → Mem → Option Mem
thread_entry cid mem = if cid == 0 then some mem else none

-- The pointer to the name of a counter: NULL if there is none.
abbrev pub name_pointer : (Counter → ℕ) → Option Counter → ℕ
name_pointer name_at none = 0
name_pointer name_at (some name) = name_at name

-- The weak `main`, which a program without its own takes; `text` points to its message.
unfoldable pub default_main :
    {S : Type 0} → Bus S → ℕ → ℕ → ℕ → Output S → Option (Output S × Stats × ℕ)
default_main bus fuel polls text out =
    printstr bus fuel polls out.mem text out.device >>= λ device'.
    some (record out { device = device' }, new_stats, 2 ^ 32 - 1)

module _ (text_at : ℕ → List ℕ) (name_at : Counter → ℕ) (fuel : ℕ) where
  -- The loop over the counters, with the rounds that are left, and where `pbuf` points behind it.
  unfoldable pub report_counters : ℕ → Stats → ℕ → Mem → ℕ → Option (Mem × ℕ)
  report_counters zero stats i mem pbuf = some (mem, pbuf)
  report_counters (suc left) stats i mem pbuf =
      let name = name_pointer name_at (stats.counter_names i) in
      let line = sprintf text_at fuel mem pbuf (codes "%s = %d\n") (name ∷ stats.counters i ∷ []) in
      (if stats.counters i == 0 then some (mem, 0) else line) >>= λ r.
      report_counters left stats (i + 1) r.0 (pbuf + r.1)

  module _ {S : Type 0} (bus : Bus S) (polls : ℕ) where
    -- Behind `main`: the report, if there is one, and the exit with what `main` returned. `buf` is the address of the report.
    unfoldable pub finish : ℕ → Output S → Stats → ℕ → Option S
    finish buf out stats ret = report_counters 2 stats 0 out.mem buf >>= λ r.
        (if r.1 == buf then some out.device else printstr bus fuel polls r.0 buf out.device)
        >>= exit bus ret

    unfoldable pub init :
        (main : Output S → Option (Output S × Stats × ℕ)) → ℕ → Tls → ℕ → Output S → Option S
    init main cid tls buf out = init_tls fuel tls out.mem >>= thread_entry cid >>= λ mem'.
        main (record out { mem = mem' }) >>= λ r. finish buf r.0 r.1 r.2
