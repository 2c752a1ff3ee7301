-- ===== src/Dhrystone/Measure/Tests.antt =====
-- A measurement of 250000 cycles, and what the driver shows of it.
use arc_tests.Prelude.{
  ℕ, ◌/◌, ◌≡◌, refl, ap, ◌∙◌, arith, Option, none, some, false, List, [], ◌∷◌, ◌++◌, codes,
}
use arc_tests.Prelude.Int.{◌-ℤ◌}
use arc_tests.Host.Device.{Host, mmio_write, mmio_read, print_words, print_bytes}
use arc_tests.Guest.Memory.{load64}
use arc_tests.Guest.Number.{printnum, collect, pad, pad_to}
use arc_tests.Guest.Format.{
  vprintfmt, escape, switch, convert, kind, print_number, getint, getuint, process_precision,
}
use arc_tests.Guest.Print.{printf, put_all}
use arc_tests.Guest.Stdio.{Output, putchar}
use arc_tests.Guest.Syscall.{syscall, send_words, wait, ◌>>=◌}
use arc_tests.Guest.Startup.{Stats}
use arc_tests.Console.Link.{mmio_bus}
use arc_tests.Dhrystone.{ident_1}
use arc_tests.Dhrystone.Tests.{blank}
use arc_tests.Dhrystone.Measure.{Readings, begin, print, main, dhrystones_per_second}
use arc_tests.Dhrystone.Measure.Figures.{counted, main_lem}
use arc_tests.Dhrystone.Measure.Shown.{FiguresShown, main-FiguresShown}

abbrev readings : Readings
readings = record {
  start_cycle = 900;
  start_instret = 100;
  begin_time = 1000;
  end_time = 251000;
  stop_cycle = 251100;
  stop_instret = 125100;
}

abbrev clock : ℕ → Readings
clock k = readings

abbrev no_text : ℕ → List ℕ
no_text p = []

abbrev fresh : Output Host
fresh = record {
  mem = λ p. 0;
  buflen = 0;
  device = record { memory = λ key. none; finished = false; console = [] };
}

abbrev micro_line : List ℕ
micro_line = codes "Microseconds for one run through Dhrystone: %ld\n"

abbrev runs_line : List ℕ
runs_line = codes "Dhrystones per Second:                      %ld\n"

main-FiguresShown_example :
    (out' : Output Host) × (main mmio_bus 1 0x5000 no_text 64 3 0 ident_1 clock 1 blank fresh
      ≡ some (out', counted readings, 0))
    × FiguresShown (250000 / 500) (500000000 / 250000) fresh out'
main-FiguresShown_example =
    main-FiguresShown 0 0x5000 no_text 64 0 0 ident_1 clock 0 250000 blank fresh (omega arith) refl
      (omega arith) (omega arith) (λ q. omega arith) refl (omega arith)

abbrev console_of : Option (Output Host × Stats × ℕ) → List ℕ
console_of none = []
console_of (some r) = r.0.device.console

shown_figures :
    console_of (
      print mmio_bus 1 0x5000 no_text 60 micro_line (500 ∷ []) fresh
      >>= print mmio_bus 1 0x5000 no_text 60 runs_line (2000 ∷ [])
      >>= λ out'. some (out', counted readings, 0))
    ≡ codes "Microseconds for one run through Dhrystone: 500\n"
      ++ 0 ∷ codes "Dhrystones per Second:                      2000\n"
      ++ 0 ∷ []
unfolding vprintfmt escape switch convert kind print_number getint getuint process_precision
    printnum collect pad pad_to ◌-ℤ◌ printf put_all putchar syscall send_words wait load64
    mmio_write mmio_read print_words print_bytes
shown_figures = refl

-- The whole of `main`.
main_shows :
    console_of (main mmio_bus 1 0x5000 no_text 60 3 0 ident_1 clock 1 blank fresh)
    ≡ codes "Microseconds for one run through Dhrystone: 500\n"
      ++ 0 ∷ codes "Dhrystones per Second:                      2000\n"
      ++ 0 ∷ []
main_shows =
    let run =
      main_lem mmio_bus 1 0x5000 no_text 60 0 0 ident_1 clock 0 250000 blank fresh (omega arith)
        refl (omega arith) (omega arith) in
    ap console_of run.4 ∙ shown_figures

-- Behind a repetition, 5000 runs in a million cycles: the product of `int`s overflows.
runs_overflow :
    dhrystones_per_second (record (begin blank fresh) { runs = 5000; user_time = 1000000 }) ≡ 705
runs_overflow = refl
