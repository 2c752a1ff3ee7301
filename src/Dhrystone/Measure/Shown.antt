-- ===== src/Dhrystone/Measure/Shown.antt =====
-- What the driver shows of `main` of benchmarks/dhrystone/dhrystone_main.c.
use arc_tests.Prelude.{
  ℕ, suc, ◌+◌, ◌/◌, ◌^◌, ◌<◌, ◌≤◌, ◌≡◌, ap, ◌∙◌, arith, some, List, [], ◌∷◌, ◌++◌, u64, codes,
}
use arc_tests.Host.Device.{Host}
use arc_tests.Guest.Memory.{IsBytes}
use arc_tests.Guest.Number.Digits.{read}
use arc_tests.Guest.Format.Decimal.{AreDigits}
use arc_tests.Guest.Format.Laws.{IsPlain}
use arc_tests.Guest.Format.Long.{vprintfmt_labelled}
use arc_tests.Guest.Print.{IsText}
use arc_tests.Guest.Stdio.{Output}
use arc_tests.Guest.Syscall.{◌>>=◌}
use arc_tests.Console.Link.{mmio_bus}
use arc_tests.Console.Chunks.{chunks, shown}
use arc_tests.Dhrystone.{Enumeration}
use arc_tests.Dhrystone.Run.{State}
use arc_tests.Dhrystone.Measure.{Readings, print, main}
use arc_tests.Dhrystone.Measure.Figures.{counted, main_lem}
use arc_tests.Dhrystone.Measure.Lines.{line, ShownLines, print_lines}

abbrev pub micro_label : List ℕ
micro_label = codes "Microseconds for one run through Dhrystone: "

abbrev pub runs_label : List ℕ
runs_label = codes "Dhrystones per Second:                      "

micro_label-IsPlain : IsPlain micro_label
micro_label-IsPlain = omega arith

runs_label-IsPlain : IsPlain runs_label
runs_label-IsPlain = omega arith

micro_label-IsText : IsText micro_label
micro_label-IsText = omega arith

runs_label-IsText : IsText runs_label
runs_label-IsText = omega arith

below : (time : ℕ) → 0 < time → 500000000 / time < 2 ^ 63
below time pos = grind arith

-- The two figures, each as its label with decimal digits that read as the number, and what the driver shows of them: the lines
-- come in the chunks of `putchar`, each with a tail that fits behind it in the 64 bytes of the data area, and nothing of
-- them is left in the buffer.
pub record FiguresShown (micro runs : ℕ) (out out' : Output Host) : Type 0 where
  pub micro_digits : List ℕ
  pub micro_decimal : AreDigits micro_digits
  pub micro_reads : read 10 micro_digits 0 ≡ micro
  pub runs_digits : List ℕ
  pub runs_decimal : AreDigits runs_digits
  pub runs_reads : read 10 runs_digits 0 ≡ runs
  pub sent : List (List ℕ)
  pub tails : List (List ℕ)
  pub shows :
      ShownLines out out' (line micro_label micro_digits ++ line runs_label runs_digits) sent tails

print-FiguresShown :
    (polls buf : ℕ) (text_at : ℕ → List ℕ) (fuel micro runs : ℕ) (out : Output Host)
    → micro < 2 ^ 63
    → runs < 2 ^ 63
    → IsBytes out.mem
    → out.buflen ≡ 0
    → 64 ≤ fuel
    → (out' : Output Host) × ((print mmio_bus
            (suc polls)
            buf
            text_at
            fuel
            (codes "Microseconds for one run through Dhrystone: %ld\n")
            (micro ∷ [])
            out
          >>= print mmio_bus
              (suc polls)
              buf
              text_at
              fuel
              (codes "Dhrystones per Second:                      %ld\n")
              (runs ∷ []))
        ≡ some out')
      × FiguresShown micro runs out out'
print-FiguresShown polls buf text_at fuel micro runs out small₁ small₂ bytes empty enough =
    let (ds₁, one, reads₁, digits₁) =
      vprintfmt_labelled text_at micro_label fuel micro micro_label-IsPlain (omega (arith, enough))
        small₁ in
    let (ds₂, two, reads₂, digits₂) =
      vprintfmt_labelled text_at runs_label fuel runs runs_label-IsPlain (omega (arith, enough))
        small₂ in
    let (out', tails, prints, shows) =
      print_lines polls buf text_at fuel (micro_label ++ codes "%ld\n") (micro ∷ [])
        (runs_label ++ codes "%ld\n") (runs ∷ []) micro_label ds₁ runs_label ds₂ out one two bytes
        empty micro_label-IsText digits₁ runs_label-IsText digits₂ in
    (
      out',
      prints,
      record {
        micro_digits = ds₁;
        micro_decimal = digits₁;
        micro_reads = reads₁;
        runs_digits = ds₂;
        runs_decimal = digits₂;
        runs_reads = reads₂;
        sent = (chunks [] (line micro_label ds₁ ++ line runs_label ds₂)).0;
        tails = tails;
        shows = shows;
      },
    )

module _ (polls buf : ℕ) (text_at : ℕ → List ℕ) (text_fuel : ℕ) (fuel unset_ch : ℕ)
    (unset_enum : Enumeration) (clock : ℕ → Readings) where
  -- If the clock goes on by `time` cycles in the first measurement, fewer than 2^52, and the buffer of `putchar` is empty, then
  -- `main` returns 0 with the counters of that measurement, and the driver shows the cycles of one run and the runs in a
  -- million cycles, both rounded down.
  pub main-FiguresShown :
      (left time : ℕ) (s : State) (out : Output Host)
      → (clock 0).begin_time < 2 ^ 64
      → (clock 0).end_time ≡ u64 ((clock 0).begin_time + time)
      → 0 < time
      → time < 2 ^ 52
      → IsBytes out.mem
      → out.buflen ≡ 0
      → 64 ≤ text_fuel
      → (out' : Output Host) × (main mmio_bus
            (suc polls)
            buf
            text_at
            text_fuel
            (suc (suc (suc fuel)))
            unset_ch
            unset_enum
            clock
            (suc left)
            s
            out
          ≡ some (out', counted (clock 0), 0))
        × FiguresShown (time / 500) (500000000 / time) out out'
  main-FiguresShown left time s out fits e pos small bytes empty enough =
      let (out', prints, shown) =
        print-FiguresShown polls buf text_at text_fuel (time / 500) (500000000 / time) out
          (omega (arith, small)) (below time pos) bytes empty enough in
      let (_, _, _, _, runs) =
        main_lem mmio_bus (suc polls) buf text_at text_fuel fuel unset_ch unset_enum clock left time
          s out fits e pos small in
      (out', runs ∙ ap (λ m. m >>= λ out'. some (out', counted (clock 0), 0)) prints, shown)
