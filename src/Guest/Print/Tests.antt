-- ===== src/Guest/Print/Tests.antt =====
-- A line that is written to a buffer, and read back.
use arc_tests.Prelude.{
  ℕ, ◌+◌, ◌≡◌, refl, some, List, [], ◌∷◌, length, arith, codes, leb, ◌&&◌, if◌then◌else◌,
}
use mathlib.Core.Option
use arc_tests.Guest.Memory.{Mem}
use arc_tests.Guest.Cstring.{Holds}
use arc_tests.Guest.Number.{printnum, collect, pad, pad_to}
use arc_tests.Guest.Stdio.{Output, putchar, sign_extend}
use arc_tests.Guest.Syscall.{Bus}
use arc_tests.Guest.Format.{
  vprintfmt, escape, switch, convert, kind, print_number, getint, getuint, process_precision,
}
use arc_tests.Guest.Print.{printf, put_all, sprintf, sprintf_lem}
use arc_tests.Guest.Atol.{atol, read_digits, skip_spaces, atol-sprintf}

abbrev no_text : ℕ → List ℕ
no_text p = []

abbrev blank : Mem
blank p = 0

counter_line : vprintfmt no_text 9 (codes "n = %d\n") (42 ∷ []) ≡ some (codes "n = 42\n")
unfolding vprintfmt escape switch convert kind print_number getint getuint process_precision
    printnum collect pad pad_to
counter_line = refl

sprintf_lem_example :
    (mem' : Mem) × (sprintf no_text 9 blank 0x1000 (codes "n = %d\n") (42 ∷ [])
      ≡ some (mem', length (codes "n = 42\n")))
    × Holds mem' 0x1000 (codes "n = 42\n")
    × ((q : ℕ)
        → mem' q ≡ (
            if leb 0x1000 q && leb q (0x1000 + length (codes "n = 42\n")) then mem' q else blank q))
sprintf_lem_example =
    sprintf_lem no_text 9 blank 0x1000 (codes "n = %d\n") (42 ∷ []) (codes "n = 42\n") counter_line
      (
        omega arith,
        omega arith,
        (
          omega arith,
          omega arith,
          (
            omega arith,
            omega arith,
            (
              omega arith,
              omega arith,
              (
                omega arith,
                omega arith,
                (omega arith, omega arith, (omega arith, omega arith, tt)),
              ),
            ),
          ),
        ),
      )

-- A text with spaces and a sign.
abbrev spaced : Mem
spaced p = if leb 4 p then 0 else if leb 3 p then b'7' else if leb 2 p then b'+' else b' '

spaced_read : atol 5 spaced 0 ≡ some 7
unfolding atol read_digits skip_spaces
spaced_read = refl

atol-sprintf_example :
    (mem' : Mem) × (n : ℕ) × (sprintf no_text 2 blank 0x1000 (b'%' ∷ b'd' ∷ []) (0xffffffd6 ∷ [])
      ≡ some (mem', n))
    × (atol (n + 1) mem' 0x1000 ≡ some (sign_extend 0xffffffd6))
atol-sprintf_example = atol-sprintf no_text 0 0 blank 0x1000 0xffffffd6 (omega arith)

-- `%c` hands the whole `int` on: 0x10a is stored as a line feed, but ends no line.
char_line : vprintfmt no_text 9 (codes "hi%c") (0x10a ∷ []) ≡ some (b'h' ∷ b'i' ∷ 0x10a ∷ [])
unfolding vprintfmt escape switch convert kind
char_line = refl

abbrev nothing_out : Output ℕ
nothing_out = record { mem = blank; buflen = 0; device = 7 }

-- A bus that counts the stores.
abbrev counting_bus : Bus ℕ
counting_bus = record { load = λ s addr. 0; store = λ s addr word. some (s + 1) }

char_line-stays :
    Option.map {B = ℕ × ℕ × ℕ}
      (λ (out : Output ℕ). (out.buflen, out.device, out.mem 0x1002))
      (printf counting_bus 1 0x1000 no_text 9 nothing_out (codes "hi%c") (0x10a ∷ []))
    ≡ some (3, 7, b'\n')
unfolding printf put_all putchar vprintfmt escape switch convert kind
char_line-stays = refl
