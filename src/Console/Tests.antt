-- ===== src/Console/Tests.antt =====
-- A benchmark's output, run through both programs.
use arc_tests.Prelude.{
  Option, List, length, codes, ℕ, ◌+◌, ◌-◌, ◌≡◌, refl, false, none, some, [], ◌∷◌, ◌++◌, arith,
  ◌==◌, if◌then◌else◌,
}
use arc_tests.Host.Memory.{byte_at}
use arc_tests.Host.Device.{Host, mmio_write, mmio_read, print_words, print_bytes}
use arc_tests.Host.Console.{bytes_from, upto_nul}
use arc_tests.Guest.Memory.{Mem, IsBytes, load64}
use arc_tests.Guest.Syscall.{send_words, wait, syscall, tohost_data, tohost_data_size, sys_write}
use arc_tests.Guest.Stdio.{Output, putchar, printstr}
use arc_tests.Guest.Number.{printnum, collect, pad, pad_to}
use arc_tests.Guest.Format.{
  vprintfmt, escape, switch, convert, kind, print_number, getint, getuint, process_precision,
}
use arc_tests.Guest.Print.{write_text, put_all, printf}
use arc_tests.Console.Lines.{printf_lem}
use arc_tests.Console.Strings.{printstr_lem, printstr_stale}
use arc_tests.Console.Link.{mmio_bus, sent_byte, syscall-write}

-- "hi" at 0x80001000.
abbrev greeting : Mem
greeting p = if p == 0x80001000 then b'h' else if p == 0x80001001 then b'i' else 0

greeting-IsBytes : IsBytes greeting
greeting-IsBytes p = ground arith

abbrev idle_host : Host
idle_host = record { memory = λ key. none; finished = false; console = [] }

syscall-write_example :
    (h' : Host) × (syscall mmio_bus 1 greeting sys_write 0x80001000 2 idle_host ≡ some h')
    × (h'.console
        ≡ idle_host.console
          ++ upto_nul
              (bytes_from (sent_byte greeting 0x80001000 2 idle_host) tohost_data tohost_data_size))
    × (h'.finished ≡ false)
syscall-write_example = syscall-write 0 greeting 0x80001000 2 idle_host greeting-IsBytes

greeting_prints :
    upto_nul (bytes_from (sent_byte greeting 0x80001000 2 idle_host) tohost_data tohost_data_size)
    ≡ b'h' ∷ b'i' ∷ 0 ∷ []
unfolding bytes_from upto_nul
greeting_prints = refl

printstr_lem_example :
    (h' : Host) × (printstr mmio_bus 3 1 greeting 0x80001000 idle_host ≡ some h')
    × (h'.console ≡ idle_host.console ++ ((b'h' ∷ b'i' ∷ []) ++ 0 ∷ []))
printstr_lem_example =
    printstr_lem (b'h' ∷ b'i' ∷ []) 3 0 greeting 0x80001000 idle_host greeting-IsBytes (omega arith)
      (omega arith) (omega arith) (omega arith)

-- A driver whose data area still holds a "!" from an earlier text.
abbrev used : Host
used = record {
  memory = λ key. if key == 0x60000080 then some b'!' else none;
  finished = false;
  console = [];
}

-- The empty text.
printstr_stale_example :
    (h' : Host) × (printstr mmio_bus 3 1 greeting 0x80001002 used ≡ some h')
    × (h'.console
        ≡ used.console
          ++ ([] ++ upto_nul (bytes_from (byte_at used.memory) (tohost_data + 0) (64 - 0))))
printstr_stale_example =
    printstr_stale [] 3 0 greeting 0x80001002 used greeting-IsBytes (omega arith) (omega arith)
      (omega arith) (omega arith)

abbrev no_text : ℕ → List ℕ
no_text p = []

line_out : vprintfmt no_text 9 (codes "n=%d\n") (42 ∷ []) ≡ some (codes "n=42" ++ b'\n' ∷ [])
unfolding vprintfmt escape switch convert kind print_number getint getuint process_precision
    printnum collect pad pad_to
line_out = refl

-- An empty buffer at 0x80002000.
abbrev fresh : Output Host
fresh = record { mem = greeting; buflen = 0; device = used }

printf_lem_example :
    (out' : Output Host) × (printf mmio_bus 1 0x80002000 no_text 9 fresh (codes "n=%d\n") (42 ∷ [])
      ≡ some out')
    × (out'.buflen ≡ 0)
    × (out'.mem ≡ (write_text greeting 0x80002000 (codes "n=42" ++ b'\n' ∷ [])).0)
    × (out'.device.console
        ≡ used.console
          ++ ((codes "n=42" ++ b'\n' ∷ [])
              ++ upto_nul (
                  bytes_from
                    (sent_byte out'.mem 0x80002000 (length (codes "n=42") + 1) used)
                    (tohost_data + (length (codes "n=42") + 1))
                    (64 - (length (codes "n=42") + 1)))))
printf_lem_example =
    printf_lem no_text 9 0 0x80002000 fresh (codes "n=%d\n") (42 ∷ []) (codes "n=42") line_out
      (
        omega arith,
        omega arith,
        omega arith,
        (
          omega arith,
          omega arith,
          omega arith,
          (omega arith, omega arith, omega arith, (omega arith, omega arith, omega arith, tt)),
        ),
      )
      (omega arith) refl greeting-IsBytes

-- A second line that is shorter than the first: the end of the first is printed again.
abbrev two_lines : Option (Output Host) → List ℕ
two_lines none = []
two_lines (some out) = out.device.console

abbrev clean : Output Host
clean = record { mem = λ p. 0; buflen = 0; device = idle_host }

printed_again :
    two_lines (put_all mmio_bus 1 0x80002000 clean (codes "hello\nhi\n"))
    ≡ codes "hello\n" ++ 0 ∷ codes "hi\nlo\n" ++ 0 ∷ []
unfolding put_all putchar syscall send_words wait load64 mmio_write mmio_read print_words
    print_bytes
printed_again = refl
