-- ===== src/Console/Ending/Tests.antt =====
-- Whole benchmarks, from `_init` to the end of the simulation, on the driver's device.
use arc_tests.Prelude.{
  ℕ, ◌≡◌, refl, arith, Option, none, some, true, false, ◌==◌, ◌||◌, if◌then◌else◌, List, [], ◌∷◌,
  ◌++◌, codes,
}
use arc_tests.Prelude.Int.{◌-ℤ◌}
use arc_tests.Host.Device.{Host, mmio_write, mmio_read, print_words, print_bytes, success_line}
use arc_tests.Guest.Memory.{Mem, load64, store64}
use arc_tests.Guest.Copy.{
  memcpy, memset, copy_blocks, copy_words, load_words, store_words, spread, fill_words,
}
use arc_tests.Guest.Number.{printnum, collect, pad, pad_to}
use arc_tests.Guest.Format.{
  vprintfmt, escape, switch, convert, kind, print_number, print_string, show_text, getint, getuint,
  process_precision,
}
use arc_tests.Guest.Print.{sprintf, write_text}
use arc_tests.Guest.Strings.{strlen, skip_string}
use arc_tests.Guest.Stdio.{Output, printstr, tohost_exit, exit}
use arc_tests.Guest.Syscall.{syscall, send_words, wait}
use arc_tests.Guest.Startup.{
  Counter, mcycle, minstret, Stats, new_stats, read_ctr, set_stats, Tls, init_tls, thread_entry,
  report_counters, finish, init, default_main,
}
use arc_tests.Console.Link.{mmio_bus}
use arc_tests.Console.Ending.{init-finished}

-- One word of variables that have a value, and one that begins with zeros.
abbrev tls : Tls
tls = record {
  thread_pointer = 0x3000;
  tdata_begin = 0x4000;
  tdata_end = 0x4008;
  tbss_end = 0x4010;
}

abbrev start : Output Host
start = record {
  mem = λ p. 0;
  buflen = 0;
  device = record { memory = λ key. none; finished = false; console = [] };
}

abbrev set_up : Mem
set_up = store64 (store64 start.mem 0x3000 (load64 start.mem 0x4000)) 0x3008 (spread 0)

sets_up : init_tls 3 tls start.mem ≡ some set_up
unfolding init_tls memcpy memset copy_blocks copy_words load_words store_words fill_words
sets_up = refl

abbrev fails : Output Host → Option (Output Host × Stats × ℕ)
fails out = some (out, new_stats, 3)

abbrev names : Counter → ℕ
names mcycle = 1
names minstret = 2

abbrev name_text : ℕ → List ℕ
name_text p = if p == 1 then codes "mcycle" else codes "minstret"

init-finished_example :
    (h' : Host) × (init name_text names 3 mmio_bus 1 fails 0 tls 0x5000 start ≡ some h')
    × (h'.finished ≡ (false || 3 == 0))
    × (h'.console ≡ [] ++ (if 3 == 0 then success_line else []))
init-finished_example =
    init-finished name_text names 3 1 0x5000 fails tls start sets_up refl refl refl (omega arith)

-- A program that takes 20 cycles for 10 instructions.
abbrev measures : Output Host → Option (Output Host × Stats × ℕ)
measures out = some (out, set_stats false 70 15 (set_stats true 50 5 new_stats), 0)

abbrev shown : Option Host → List ℕ
shown none = []
shown (some h) = h.console

reported :
    shown (init name_text names 40 mmio_bus 1 measures 0 tls 0x5000 start)
    ≡ codes "mcycle = 20\nminstret = 10\n" ++ 0 ∷ success_line
unfolding init init_tls memcpy memset copy_blocks copy_words load_words store_words fill_words
    thread_entry set_stats read_ctr finish report_counters sprintf write_text vprintfmt escape
    switch convert kind print_number print_string show_text getint getuint process_precision
    printnum collect pad pad_to ◌-ℤ◌ printstr strlen skip_string syscall send_words wait load64
    store64 spread mmio_write mmio_read print_words print_bytes exit tohost_exit
reported = refl

-- A program without a `main`: its message, "foo" here, and no success line.
abbrev foo : Output Host
foo = record start {
  mem = λ p.
      if p == 0x6000 then b'f' else if p == 0x6001 then b'o' else if p == 0x6002 then b'o' else 0;
}

no_main :
    shown (init name_text names 4 mmio_bus 1 (default_main mmio_bus 4 1 0x6000) 0 tls 0x5000 foo)
    ≡ codes "foo" ++ 0 ∷ []
unfolding init default_main init_tls memcpy memset copy_blocks copy_words load_words store_words
    fill_words thread_entry finish report_counters printstr strlen skip_string syscall send_words
    wait load64 store64 spread mmio_write mmio_read print_words print_bytes exit tohost_exit
no_main = refl
