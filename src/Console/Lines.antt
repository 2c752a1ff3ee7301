-- ===== src/Console/Lines.antt =====
-- What a line that is printed by `printf` of benchmarks/common/syscalls.c makes the driver print.
use arc_tests.Prelude.{
  ℕ, suc, ◌+◌, ◌-◌, ◌^◌, ◌<◌, ◌≡◌, ◌≢◌, inl, inr, refl, ap, ◌∙◌, sym, arith, some, Option-cases,
  false, List, [], ◌∷◌, ◌++◌, length, u8, ◌==◌, ◌||◌, true,
}
use native.Mathlib.Nat.{add-zero}
use mathlib.Core.Path.{ap₂}
use arc_tests.Host.Device.{Host}
use arc_tests.Host.Console.{bytes_from, upto_nul, has_nul}
use arc_tests.Guest.Memory.{Mem, IsBytes, poke}
use arc_tests.Guest.Format.{vprintfmt}
use arc_tests.Guest.Print.{
  IsText, write_text, write_text-append, write_text_outside, write_text-IsBytes, put_all, printf,
}
use arc_tests.Guest.Stdio.{Output, putchar}
use arc_tests.Guest.Syscall.{tohost_data, tohost_data_size}
use arc_tests.Console.Link.{mmio_bus, sent_byte, syscall-write}
use arc_tests.Console.Strings.{area-bytes}

-- The characters of a line: bytes, none of them NUL or the end of the line.
abbrev pub IsLine : List ℕ → Type 0
IsLine [] = Unit
IsLine (c ∷ cs) = (0 < c) × (c < 2 ^ 8) × (c ≢ b'\n') × IsLine cs

module _ (polls buf : ℕ) where
  -- Characters of a line only go to the buffer, as long as they fit.
  put_all-line :
      (line : List ℕ) (out : Output Host)
      → IsLine line
      → out.buflen + length line < 64
      → put_all mmio_bus polls buf out line
        ≡ some (record out {
          mem = (write_text out.mem (buf + out.buflen) line).0;
          buflen = out.buflen + length line;
        })
  unfolding put_all putchar write_text
  put_all-line [] out h lt = ap (λ n. some (record out { buflen = n })) (sym (add-zero out.buflen))
  put_all-line (c ∷ cs) out h lt =
      let out₁ = record out {
        mem = poke out.mem (buf + out.buflen) (u8 c);
        buflen = out.buflen + 1;
      } in
      let first : putchar mmio_bus polls buf out c ≡ some out₁ = ground (arith, h.2, lt) in
      let rest = put_all-line cs out₁ h.3 (omega (arith, lt)) in
      let place : buf + (out.buflen + 1) ≡ buf + out.buflen + 1 = omega arith in
      let count : out.buflen + 1 + length cs ≡ out.buflen + suc (length cs) = omega arith in
      ground (arith, first)
      ∙ rest
      ∙ ap₂ (λ p n. some (record out₁ { mem = (write_text out₁.mem p cs).0; buflen = n })) place
          count

  pub put_all-append :
      (xs ys : List ℕ) (out out' : Output Host)
      → put_all mmio_bus polls buf out xs ≡ some out'
      → put_all mmio_bus polls buf out (xs ++ ys) ≡ put_all mmio_bus polls buf out' ys
  unfolding put_all
  put_all-append [] ys out out' e =
      let same : out ≡ out' = ground (arith, e) in ap (λ o. put_all mmio_bus polls buf o ys) same
  put_all-append (x ∷ xs) ys out out' e = elim (Option-cases (putchar mmio_bus polls buf out x)) [
    | inl stop ↦ absurd (ground (arith, stop, e))
    | inr (out₁, one) ↦
        let rest = put_all-append xs ys out₁ out' (ground (arith, one, e)) in
        ground (arith, one, rest)
  ]

  put_all-one :
      (c : ℕ) (out out' : Output Host)
      → putchar mmio_bus polls buf out c ≡ some out'
      → put_all mmio_bus polls buf out (c ∷ []) ≡ some out'
  unfolding put_all
  put_all-one c out out' e = ground (arith, e)

bytes_from-write_text :
    (text : List ℕ) (mem : Mem) (p : ℕ)
    → IsText text
    → bytes_from (write_text mem p text).0 p (length text) ≡ text
unfolding bytes_from write_text
bytes_from-write_text [] mem p h = refl
bytes_from-write_text (c ∷ cs) mem p h =
    let first = write_text_outside cs (poke mem p (u8 c)) (p + 1) p (inl (omega arith)) in
    ground (arith, first, h.0, h.1, bytes_from-write_text cs (poke mem p (u8 c)) (p + 1) h.2)

IsLine-IsText : (line : List ℕ) → IsLine line → IsText (line ++ b'\n' ∷ [])
IsLine-IsText [] h = (omega arith, omega arith, tt)
IsLine-IsText (c ∷ cs) h = (h.0, h.1, IsLine-IsText cs h.3)

IsLine-has_nul : (line : List ℕ) → IsLine line → has_nul (line ++ b'\n' ∷ []) ≡ false
unfolding has_nul
IsLine-has_nul [] h = refl
IsLine-has_nul (c ∷ cs) h = ground (arith, h.0, IsLine-has_nul cs h.3)

pub length-snoc : (line : List ℕ) (c : ℕ) → length (line ++ c ∷ []) ≡ length line + 1
length-snoc [] c = refl
length-snoc (d ∷ ds) c = omega (arith, length-snoc ds c)

-- What a character sends that ends a line or fills the buffer: the buffer with it.
pub put_flush :
    (polls buf c : ℕ) (out : Output Host)
    → IsBytes out.mem
    → (c == b'\n' || out.buflen + 1 == tohost_data_size) ≡ true
    → (h' : Host) × (putchar mmio_bus (suc polls) buf out c
        ≡ some (record { mem = poke out.mem (buf + out.buflen) (u8 c); buflen = 0; device = h' }))
      × (h'.console
          ≡ out.device.console
            ++ upto_nul (
                bytes_from
                  (sent_byte
                    (poke out.mem (buf + out.buflen) (u8 c))
                    buf
                    (out.buflen + 1)
                    out.device)
                  tohost_data
                  tohost_data_size))
      × (h'.finished ≡ out.device.finished)
unfolding putchar
put_flush polls buf c out bytes now =
    let mem' = poke out.mem (buf + out.buflen) (u8 c) in
    let (h', runs, prints, same) =
      syscall-write polls mem' buf (out.buflen + 1) out.device (λ q. ground (arith, bytes q)) in
    (h', rw now (ground (arith, runs)), prints, same)

-- The buffer behind a line is what `sprintf` would have written.
written_line :
    (buf : ℕ) (out : Output Host) (line : List ℕ)
    → out.buflen ≡ 0
    → poke (write_text out.mem (buf + out.buflen) line).0 (buf + (out.buflen + length line)) b'\n'
      ≡ (write_text out.mem buf (line ++ b'\n' ∷ [])).0
unfolding write_text
written_line buf out line empty =
    let start : buf + out.buflen ≡ buf = omega (arith, empty) in
    let end : buf + (out.buflen + length line) ≡ buf + length line = omega (arith, empty) in
    ap₂ (λ p q. poke (write_text out.mem p line).0 q b'\n') start end
    ∙ ap (λ (r : Mem × ℕ). r.0) (sym (write_text-append line (b'\n' ∷ []) out.mem buf))

module _ (text_at : ℕ → List ℕ) (fuel polls buf : ℕ) (out : Output Host)
    (fmt args line : List ℕ) where
  -- `printf` of one line, of characters that are bytes and no NUL, with room for its end in the buffer of 64 bytes, which is
  -- empty before, leaves the buffer empty and prints the line with its end. Behind that it prints what the rest of
  -- the last word of the buffer and the data area of the driver still hold, up to the first NUL there.
  pub printf_lem :
      vprintfmt text_at fuel fmt args ≡ some (line ++ b'\n' ∷ [])
      → IsLine line
      → length line < 64
      → out.buflen ≡ 0
      → IsBytes out.mem
      → (out' : Output Host) × (printf mmio_bus (suc polls) buf text_at fuel out fmt args
          ≡ some out')
        × (out'.buflen ≡ 0)
        × (out'.mem ≡ (write_text out.mem buf (line ++ b'\n' ∷ [])).0)
        × (out'.device.console
            ≡ out.device.console
              ++ ((line ++ b'\n' ∷ [])
                  ++ upto_nul (
                      bytes_from
                        (sent_byte out'.mem buf (length line + 1) out.device)
                        (tohost_data + (length line + 1))
                        (64 - (length line + 1)))))
  unfolding printf
  printf_lem runs h short empty bytes =
      let whole = line ++ b'\n' ∷ [] in
      let out₁ = record out {
        mem = (write_text out.mem (buf + out.buflen) line).0;
        buflen = out.buflen + length line;
      } in
      let plain = put_all-line (suc polls) buf line out h (omega (arith, empty, short)) in
      let (h', newline, prints, _) =
        put_flush polls buf b'\n' out₁ (write_text-IsBytes line out.mem (buf + out.buflen) bytes)
          refl in
      let out' : Output Host = record {
        mem = poke out₁.mem (buf + out₁.buflen) b'\n';
        buflen = 0;
        device = h';
      } in
      let last = put_all-one (suc polls) buf b'\n' out₁ out' newline in
      let written : out'.mem ≡ (write_text out.mem buf whole).0 = written_line buf out line empty in
      let size = length-snoc line b'\n' in
      let sent : out₁.buflen + 1 ≡ length whole = omega (arith, size, empty) in
      let stands : bytes_from out'.mem buf (length whole) ≡ whole =
        ap (λ (mem : Mem). bytes_from mem buf (length whole)) written
        ∙ bytes_from-write_text whole out.mem buf (IsLine-IsText line h) in
      let area =
        area-bytes whole out'.mem buf out.device stands (IsLine-has_nul line h)
          (omega (arith, size, short)) in
      (
        out',
        ground (arith, runs, put_all-append (suc polls) buf line (b'\n' ∷ []) out out₁ plain, last),
        refl,
        written,
        prints
            ∙ ap
                (λ n.
                  out.device.console
                  ++ upto_nul (bytes_from (sent_byte out'.mem buf n out.device) tohost_data 64))
                sent
            ∙ ap (λ cs. out.device.console ++ cs) area
            ∙ ap
                (λ n.
                  out.device.console
                  ++ (whole
                      ++ upto_nul (
                          bytes_from (sent_byte out'.mem buf n out.device) (tohost_data + n)
                            (64 - n))))
                size,
      )
