-- ===== src/Guest/Startup/Tests.antt =====
-- What `setStats` measures in a run, and what `_init` prints of it.
use arc_tests.Prelude.{inl, ◌+◌, ◌-◌, ◌^◌, ◌≡◌, arith, some, true, false, u64}
use arc_tests.Guest.Memory.{Mem}
use arc_tests.Guest.Startup.Locals.{IsSetUp, init_tls-IsSetUp}
use arc_tests.Guest.Startup.{Tls, init_tls, new_stats, mcycle, minstret, set_stats}
use arc_tests.Guest.Startup.Measure.{set_stats_lem}

set_stats_lem_example :
    let started = set_stats true (u64 (2 ^ 64 - 1)) (u64 3) new_stats in
    let stopped = set_stats false (u64 (2 ^ 64 - 1 + 20)) (u64 (3 + 10)) started in
    (stopped.counters 0 ≡ 20)
    × (stopped.counters 1 ≡ 10)
    × (stopped.counter_names 0 ≡ some mcycle)
    × (stopped.counter_names 1 ≡ some minstret)
set_stats_lem_example = set_stats_lem (2 ^ 64 - 1) 3 20 10 new_stats (omega arith) (omega arith)

abbrev tls : Tls
tls = record {
  thread_pointer = 0x3000;
  tdata_begin = 0x4000;
  tdata_end = 0x4004;
  tbss_end = 0x4010;
}

abbrev sevens : Mem
sevens p = 7

init_tls-IsSetUp_example :
    (mem' : Mem) × (init_tls 17 tls sevens ≡ some mem') × IsSetUp tls sevens mem'
init_tls-IsSetUp_example =
    init_tls-IsSetUp 17 tls sevens (λ q. omega arith) (omega arith) (omega arith)
      (inl (omega arith)) (omega arith)
