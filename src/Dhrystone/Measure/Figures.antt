-- ===== src/Dhrystone/Measure/Figures.antt =====
-- What `main` of benchmarks/dhrystone/dhrystone_main.c leaves and prints.
use arc_tests.Prelude.{
  ℕ, suc, ◌+◌, ◌/◌, ◌^◌, ◌<◌, ◌≡◌, refl, ap, ◌∙◌, arith, some, true, false, List, [], ◌∷◌, u64,
  sub64, codes,
}
use arc_tests.Guest.Stdio.{Output}
use arc_tests.Guest.Syscall.{Bus, ◌>>=◌}
use arc_tests.Guest.Startup.{Stats, new_stats, set_stats}
use arc_tests.Dhrystone.{Enumeration}
use arc_tests.Dhrystone.Run.{State}
use arc_tests.Dhrystone.Final.{IsFinal, run_all-initialise}
use arc_tests.Dhrystone.Measure.{
  slt64, Readings, Bench, measure, print, measure_loop, microseconds, dhrystones_per_second,
  print_figures, begin, main,
}

-- The counters of one measurement.
abbrev pub counted : Readings → Stats
counted r =
    set_stats false r.stop_cycle r.stop_instret
      (set_stats true r.start_cycle r.start_instret new_stats)

module _ (fuel unset_ch : ℕ) (unset_enum : Enumeration) where
  -- A measurement of 500 runs, from the initializations on.
  measure-begin :
      {S : Type 0} (r : Readings) (s : State) (out : Output S)
      → (s' : State) × (measure (suc (suc (suc fuel))) unset_ch unset_enum r (begin s out)
          ≡ some (record {
            state = s';
            stats = counted r;
            runs = 500;
            user_time = sub64 r.end_time r.begin_time;
            out = out;
          }))
        × IsFinal s'
        × (s'.globals.arr_2_glob 8 7 ≡ 510)
  unfolding measure
  measure-begin r s out =
      let (s', ends, final, count) = run_all-initialise fuel unset_ch unset_enum 499 s in
      (s', rw ends refl, final, count)

module _ {S : Type 0} (bus : Bus S) (polls buf : ℕ) (text_at : ℕ → List ℕ) (text_fuel : ℕ)
    (fuel unset_ch : ℕ) (unset_enum : Enumeration) (clock : ℕ → Readings) where
  -- If the clock goes on by `time` cycles in the first measurement, fewer than 2^52, one measurement of 500 runs is enough.
  -- The variables have the values that the comments of `main` promise, and `main` prints the cycles of one run and the
  -- runs in a million cycles, both rounded down, and returns 0.
  pub main_lem :
      (left time : ℕ) (s : State) (out : Output S)
      → (clock 0).begin_time < 2 ^ 64
      → (clock 0).end_time ≡ u64 ((clock 0).begin_time + time)
      → 0 < time
      → time < 2 ^ 52
      → let inner = suc (suc (suc fuel)) in
        (b : Bench S) × (measure_loop bus polls buf text_at text_fuel inner unset_ch unset_enum
            clock
            (suc left)
            0
            (begin s out)
          ≡ some b)
        × IsFinal b.state
        × (b.state.globals.arr_2_glob 8 7 ≡ 510)
        × (main bus polls buf text_at text_fuel inner unset_ch unset_enum clock (suc left) s out ≡ (
            print bus polls buf text_at text_fuel
              (codes "Microseconds for one run through Dhrystone: %ld\n")
              ((time / 500) ∷ [])
              out
            >>= print bus polls buf text_at text_fuel
                (codes "Dhrystones per Second:                      %ld\n")
                ((500000000 / time) ∷ [])
            >>= λ out'. some (out', counted (clock 0), 0)))
  unfolding measure_loop main print_figures
  main_lem left time s out fits e pos small =
      let r = clock 0 in
      let (s', ends, final, count) = measure-begin fuel unset_ch unset_enum r s out in
      let passed : sub64 r.end_time r.begin_time ≡ time = omega (arith, fits, e, small) in
      let enough : slt64 (sub64 r.end_time r.begin_time) 1 ≡ false =
        rw passed (ground (arith, pos, small)) in
      let b : Bench S = record {
        state = s';
        stats = counted r;
        runs = 500;
        user_time = sub64 r.end_time r.begin_time;
        out = out;
      } in
      let loops : measure_loop bus polls buf text_at text_fuel (suc (suc (suc fuel))) unset_ch
            unset_enum clock (suc left) 0 (begin s out)
          ≡ some b =
        rw ends (rw enough refl) in
      let micro : microseconds b ≡ time / 500 = rw passed (ground (arith, pos, small)) in
      let runs : dhrystones_per_second b ≡ 500000000 / time =
        rw passed (ground (arith, pos, small)) in
      (
        b,
        loops,
        final,
        count,
        ap (λ m. m >>= print_figures bus polls buf text_at text_fuel) loops ∙ rw (micro, runs) refl,
      )
