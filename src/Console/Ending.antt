-- ===== src/Console/Ending.antt =====
-- The end of a benchmark, as the driver sees it: `exit` and the end of `_init` of benchmarks/common/syscalls.c, on the bus.
pub mod Tests
use arc_tests.Prelude.{
  ℕ, zero, suc, ◌+◌, ◌-◌, ◌*◌, ◌/◌, ◌%◌, ◌^◌, ◌<◌, ◌≡◌, refl, ap, ◌∙◌, arith, Option, some, true,
  false, ◌==◌, ◌||◌, ltb, if◌then◌else◌, List, [], ◌++◌, Bool-cases, inl, inr, u64, bit_or,
}
use arc_tests.Prelude.Bits.{bit_or_digit, bit_or-zero}
use mathlib.Core.List.{append-nil}
use arc_tests.Host.Memory.{assign, word_of}
use arc_tests.Host.Device.{Host, mmio_write, success_line}
use arc_tests.Guest.Stdio.{Output, sign_extend, tohost_exit, exit}
use arc_tests.Guest.Syscall.{tohost, sys_write, ◌>>=◌}
use arc_tests.Guest.Startup.{
  Counter, Stats, Tls, init_tls, thread_entry, report_counters, finish, init,
}
use arc_tests.Guest.Memory.{Mem}
use arc_tests.Console.Link.{mmio_bus}

-- An even number gets its lowest bit.
bit_or-one : (x : ℕ) → x % 2 ≡ 0 → bit_or x 1 ≡ x + 1
bit_or-one x even = omega (arith, even, bit_or_digit x 1, bit_or-zero (x / 2) (x / 2) (omega arith))

module _ (code : ℕ) (h : Host) where
  -- `exit` is a store, which ends the simulation and prints the success line exactly with code 0.
  exit-finished :
      code < 2 ^ 32
      → (h' : Host) × (exit mmio_bus code h ≡ some h')
        × (h'.finished ≡ (h.finished || code == 0))
        × (h'.console ≡ h.console ++ (if code == 0 then success_line else []))
  unfolding exit tohost_exit mmio_write
  exit-finished fits =
      let x = u64 (sign_extend code * 2) in
      let word : bit_or x 1 ≡ x + 1 = bit_or-one x (ground arith) in
      let stored = assign h.memory tohost (bit_or x 1) in
      elim (Bool-cases (code == 0)) [
        | inl success ↦
            let one : (bit_or x 1 == 1) ≡ true = ground (arith, word, success) in
            (
              record { memory = stored; finished = true; console = h.console ++ success_line },
              rw one refl,
              ground (arith, success),
              ground (arith, success),
            )
        | inr failure ↦
            let other : (bit_or x 1 == 1) ≡ false = ground (arith, word, failure, fits) in
            let odd : (bit_or x 1 == sys_write) ≡ false = ground (arith, word) in
            (
              record h { memory = stored },
              rw (other, odd) refl,
              ground (arith, failure),
              ground (arith, failure, append-nil h.console),
            )
      ]

module _ (text_at : ℕ → List ℕ) (name_at : Counter → ℕ) (fuel polls buf : ℕ) where
  finish_quiet :
      (out : Output Host) (stats : Stats) (ret : ℕ)
      → stats.counters 0 ≡ 0
      → stats.counters 1 ≡ 0
      → finish text_at name_at fuel mmio_bus polls buf out stats ret ≡ exit mmio_bus ret out.device
  unfolding finish report_counters
  finish_quiet out stats ret no_cycles no_instrs = ground (arith, no_cycles, no_instrs)

  module _ (main : Output Host → Option (Output Host × Stats × ℕ)) (tls : Tls)
      (out : Output Host) where
    -- Where the thread-local variables are set up on core 0, and `main` returns with both counters at 0, `_init` comes to
    -- its end. Beyond what `main` did, it ends the simulation and prints the success line exactly if `main` returned 0, and
    -- prints nothing else.
    pub init-finished :
        {mem' : Mem} {out' : Output Host} {stats : Stats} {ret : ℕ}
        → init_tls fuel tls out.mem ≡ some mem'
        → main (record out { mem = mem' }) ≡ some (out', stats, ret)
        → stats.counters 0 ≡ 0
        → stats.counters 1 ≡ 0
        → ret < 2 ^ 32
        → (h' : Host) × (init text_at name_at fuel mmio_bus polls main 0 tls buf out ≡ some h')
          × (h'.finished ≡ (out'.device.finished || ret == 0))
          × (h'.console ≡ out'.device.console ++ (if ret == 0 then success_line else []))
    unfolding init thread_entry
    init-finished {out'} {stats} {ret} sets_up runs no_cycles no_instrs fits =
        let (h', ends, finished, prints) = exit-finished ret out'.device fits in
        let quiet = finish_quiet out' stats ret no_cycles no_instrs in
        (h', rw (sets_up, runs) (quiet ∙ ends), finished, prints)
