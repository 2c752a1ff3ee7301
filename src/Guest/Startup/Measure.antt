-- ===== src/Guest/Startup/Measure.antt =====
-- What `setStats` of benchmarks/common/syscalls.c measures.
use arc_tests.Prelude.{ℕ, ◌+◌, ◌^◌, ◌<◌, ◌≡◌, refl, arith, some, true, false, u64}
use arc_tests.Guest.Startup.{Stats, mcycle, minstret, read_ctr, set_stats}

-- Between `setStats(1)` and `setStats(0)`, fewer than 2^64 cycles and instructions pass: the counters then hold their
-- numbers, also when the registers, which have 64 bits, wrapped around in between, and each is under its name.
pub set_stats_lem :
    (cycle instret cycles instrs : ℕ) (stats : Stats)
    → cycles < 2 ^ 64
    → instrs < 2 ^ 64
    → let started = set_stats true (u64 cycle) (u64 instret) stats in
      let stopped = set_stats false (u64 (cycle + cycles)) (u64 (instret + instrs)) started in
      (stopped.counters 0 ≡ cycles)
      × (stopped.counters 1 ≡ instrs)
      × (stopped.counter_names 0 ≡ some mcycle)
      × (stopped.counter_names 1 ≡ some minstret)
unfolding set_stats read_ctr
set_stats_lem cycle instret cycles instrs stats hc hi =
    (omega (arith, hc), omega (arith, hi), refl, refl)
