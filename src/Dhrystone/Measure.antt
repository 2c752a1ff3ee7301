-- ===== src/Dhrystone/Measure.antt =====
-- The measurement of benchmarks/dhrystone/dhrystone_main.c: `main` around its loop over the runs, with the clock
-- of benchmarks/dhrystone/dhrystone.h. `debug_printf` does nothing.
pub mod Figures
pub mod Lines
pub mod Shown
pub mod Tests
use arc_tests.Prelude.{
  ℕ, zero, suc, ◌+◌, ◌-◌, ◌*◌, ◌/◌, ◌^◌, Option, none, some, Bool, true, false, leb, ltb,
  if◌then◌else◌, List, [], ◌∷◌, u32, u64, sub64, codes,
}
use arc_tests.Guest.Stdio.{Output, sign_extend}
use arc_tests.Guest.Syscall.{Bus, ◌>>=◌}
use arc_tests.Guest.Print.{printf}
use arc_tests.Guest.Startup.{Stats, new_stats, set_stats}
use arc_tests.Dhrystone.{Enumeration, slt}
use arc_tests.Dhrystone.Run.{State, initialise, run_all}

abbrev pub number_of_runs : ℕ
number_of_runs = 500

abbrev pub too_small_time : ℕ
too_small_time = 1

abbrev pub mic_secs_per_second : ℕ
mic_secs_per_second = 1000000

abbrev pub hz : ℕ
hz = 1000000

-- The signed order of two 64-bit numbers.
abbrev pub slt64 : ℕ → ℕ → Bool
slt64 a b = ltb (u64 (a + 2 ^ 63)) (u64 (b + 2 ^ 63))

-- Division of `long`s, towards zero.
abbrev pub div64 : ℕ → ℕ → ℕ
div64 a b =
    if leb (2 ^ 63) a
    then (if leb (2 ^ 63) b then (2 ^ 64 - a) / (2 ^ 64 - b) else sub64 0 ((2 ^ 64 - a) / b))
    else if leb (2 ^ 63) b
    then sub64 0 (a / (2 ^ 64 - b))
    else a / b

-- What the registers give in one measurement: to `setStats(1)`, `Start_Timer`, `Stop_Timer` and `setStats(0)`.
pub record Readings : Type 0 where
  pub start_cycle : ℕ
  pub start_instret : ℕ
  pub begin_time : ℕ
  pub end_time : ℕ
  pub stop_cycle : ℕ
  pub stop_instret : ℕ

-- What `main` works on.
pub record Bench (S : Type 0) : Type 0 where
  pub state : State
  pub stats : Stats
  pub runs : ℕ
  pub user_time : ℕ
  pub out : Output S

-- The rounds of `for (Run_Index = 1; Run_Index <= Number_Of_Runs; ++Run_Index)`, over `int`s.
abbrev pub rounds : ℕ → ℕ
rounds n = if slt 0 n then n else 0

-- `s` is what the variables hold at first.
abbrev pub begin : {S : Type 0} → State → Output S → Bench S
begin s out = record {
  state = initialise s;
  stats = new_stats;
  runs = number_of_runs;
  user_time = 0;
  out = out;
}

abbrev pub microseconds : {S : Type 0} → Bench S → ℕ
microseconds b = div64 (u64 (div64 b.user_time (sign_extend b.runs) * mic_secs_per_second)) hz

-- `HZ * Number_Of_Runs` is a product of `int`s.
abbrev pub dhrystones_per_second : {S : Type 0} → Bench S → ℕ
dhrystones_per_second b = div64 (sign_extend (u32 (hz * b.runs))) b.user_time

-- From `setStats(1)` to `User_Time`, with the fuel of the inner loops, and what the variables hold that are not set.
unfoldable pub measure : {S : Type 0} → ℕ → ℕ → Enumeration → Readings → Bench S → Option (Bench S)
measure fuel unset_ch unset_enum r b =
    run_all fuel unset_ch unset_enum (rounds b.runs) 1 b.state >>= λ s. some (record b {
      state = s;
      stats =
          set_stats false r.stop_cycle r.stop_instret
            (set_stats true r.start_cycle r.start_instret b.stats);
      user_time = sub64 r.end_time r.begin_time;
    })

module _ {S : Type 0} (bus : Bus S) (polls buf : ℕ) (text_at : ℕ → List ℕ) (text_fuel : ℕ) where
  abbrev pub print : List ℕ → List ℕ → Output S → Option (Output S)
  print fmt args out = printf bus polls buf text_at text_fuel out fmt args

  -- The two figures, and what `main` returns.
  unfoldable pub print_figures : Bench S → Option (Output S × Stats × ℕ)
  print_figures b =
      print (codes "Microseconds for one run through Dhrystone: %ld\n") (microseconds b ∷ []) b.out
      >>= print (codes "Dhrystones per Second:                      %ld\n")
          (dhrystones_per_second b ∷ [])
      >>= λ out'. some (out', b.stats, 0)

  -- Measurement `k` has the readings `clock k`.
  module _ (fuel unset_ch : ℕ) (unset_enum : Enumeration) (clock : ℕ → Readings) where
    -- `while (!Done)`, with the rounds that are left.
    unfoldable pub measure_loop : ℕ → ℕ → Bench S → Option (Bench S)
    measure_loop zero k b = none
    measure_loop (suc left) k b = measure fuel unset_ch unset_enum (clock k) b >>= λ b'.
        let again =
          print (codes "Measured time too small to obtain meaningful results\n") [] b'.out
          >>= print (codes "\n") []
          >>= λ out'.
              measure_loop left (k + 1) (record b' { runs = u32 (b'.runs * 10); out = out' }) in
        if slt64 b'.user_time too_small_time then again else some b'

    unfoldable pub main : ℕ → State → Output S → Option (Output S × Stats × ℕ)
    main left s out = measure_loop left 0 (begin s out) >>= print_figures
