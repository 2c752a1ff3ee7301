-- ===== src/Guest/Format.antt =====
-- `vprintfmt` of benchmarks/common/syscalls.c, as the characters that it hands to `putch`: each an `int`, given by its 32
-- bits, which only `%c` fills with more than a byte.
pub mod Laws
pub mod Decimal
pub mod Long
pub mod Tests
use arc_tests.Prelude.{
  ℕ, zero, suc, ◌+◌, ◌-◌, ◌*◌, ◌^◌, Bool, true, false, not, ◌&&◌, Option, none, some, ltb, leb,
  ◌==◌, if◌then◌else◌, List, [], ◌∷◌, ◌++◌, length, replicate, u32, u64, sub64, codes,
}
use arc_tests.Prelude.Int.{ℤ, pos, negsuc, pos_part, ◌-ℤ◌, ltb_ℤ}
use arc_tests.Guest.Number.{printnum}
use arc_tests.Guest.Stdio.{sign_extend}

-- What a conversion starts from: the variables that the flags set, and the arguments that are left, 64 bits each.
-- A width beyond `int` is not cut.
pub record Spec : Type 0 where
  pub padc : ℕ
  pub width : ℤ
  pub precision : ℤ
  pub lflag : ℕ
  pub args : List ℕ

-- The cases of the `switch`.
pub data Kind : Type 0 where
  minus : Kind
  zeros : Kind
  number : Kind
  star : Kind
  dot : Kind
  sharp : Kind
  long : Kind
  char : Kind
  string : Kind
  decimal : Kind
  unsigned : Kind
  octal : Kind
  pointer : Kind
  hexadecimal : Kind
  percent : Kind
  unknown : Kind

unfoldable pub kind : ℕ → Kind
kind ch =
    if ch == b'-'
    then minus
    else if ch == b'0'
    then zeros
    else if leb b'1' ch && leb ch b'9'
    then number
    else if ch == b'*'
    then star
    else if ch == b'.'
    then dot
    else if ch == b'#'
    then sharp
    else if ch == b'l'
    then long
    else if ch == b'c'
    then char
    else if ch == b's'
    then string
    else if ch == b'd'
    then decimal
    else if ch == b'u'
    then unsigned
    else if ch == b'o'
    then octal
    else if ch == b'p'
    then pointer
    else if ch == b'x'
    then hexadecimal
    else if ch == b'%'
    then percent
    else unknown

-- What a conversion prints, the rest of the format, and the arguments that are left.
abbrev pub Printed : Type 0
Printed = List ℕ × List ℕ × List ℕ

-- `process_precision`.
unfoldable pub process_precision : Spec → Spec
process_precision s =
    if ltb_ℤ s.width (pos 0) then record s { width = s.precision; precision = negsuc 0 } else s

-- `for (; (ch = *p) != '\0' && (precision < 0 || --precision >= 0); ...)`.
unfoldable pub show_text : ℤ → List ℕ → List ℕ
show_text precision [] = []
show_text (negsuc n) (c ∷ cs) = c ∷ show_text (negsuc n) cs
show_text (pos zero) (c ∷ cs) = []
show_text (pos (suc n)) (c ∷ cs) = c ∷ show_text (pos n) cs

-- The case of a string; `strnlen(p, precision)` is the length of what is shown.
unfoldable pub print_string : Spec → List ℕ → List ℕ
print_string s text =
    let shown = show_text s.precision text in
    let n = length shown in
    let padded = ltb_ℤ (pos 0) s.width && not (s.padc == b'-') in
    let pad = if padded then pos_part (s.width -ℤ pos n) else 0 in
    let after = if padded then 0 else pos_part (s.width -ℤ pos n) in
    replicate pad s.padc ++ shown ++ replicate after b' '

-- `getuint` and `getint`, the latter as the 64 bits that it returns.
unfoldable pub getuint : ℕ → ℕ → ℕ
getuint lflag arg = if leb 1 lflag then u64 arg else u32 arg

unfoldable pub getint : ℕ → ℕ → ℕ
getint lflag arg = if leb 1 lflag then u64 arg else sign_extend (u32 arg)

-- `signed_number` and `unsigned_number`: `front` and the digits.
unfoldable pub print_number : List ℕ → ℕ → ℕ → Spec → List ℕ → List ℕ → Option Printed
print_number front num base s rest args = elim (printnum num base s.width s.padc) [
  | none ↦ none
  | some digits ↦ some (front ++ digits, rest, args)
]

-- `goto reswitch`, or the end of the conversion.
pub data Round : Type 0 where
  again : Bool → Spec → Round
  over : Option Printed → Round

-- The next argument. `none` is an argument that the caller has not passed.
abbrev pub with_arg : List ℕ → (ℕ → List ℕ → Option Printed) → Option Printed
with_arg [] k = none
with_arg (arg ∷ args) k = k arg args

module _ (text_at : ℕ → List ℕ) where
  -- A conversion of a known kind that is no flag; `text_at` is the text that a pointer points to.
  unfoldable pub convert : Kind → ℕ → Spec → List ℕ → List ℕ → Option Printed
  convert char ch s rest last_fmt = with_arg s.args (λ arg args. some (u32 arg ∷ [], rest, args))
  convert string ch s rest last_fmt = with_arg s.args (λ arg args.
      some (print_string s (if arg == 0 then codes "(null)" else text_at arg), rest, args))
  convert decimal ch s rest last_fmt = with_arg s.args (λ arg args.
      let num = getint s.lflag arg in
      if leb (2 ^ 63) num
      then print_number (b'-' ∷ []) (sub64 0 num) 10 s rest args
      else print_number [] num 10 s rest args)
  convert unsigned ch s rest last_fmt =
      with_arg s.args (λ arg args. print_number [] (getuint s.lflag arg) 10 s rest args)
  convert octal ch s rest last_fmt =
      with_arg s.args (λ arg args. print_number [] (getuint s.lflag arg) 8 s rest args)
  convert pointer ch s rest last_fmt =
      with_arg s.args (λ arg args. print_number (b'0' ∷ b'x' ∷ []) (getuint 1 arg) 16 s rest args)
  convert hexadecimal ch s rest last_fmt =
      with_arg s.args (λ arg args. print_number [] (getuint s.lflag arg) 16 s rest args)
  convert percent ch s rest last_fmt = some (ch ∷ [], rest, s.args)
  convert other ch s rest last_fmt = some (b'%' ∷ [], last_fmt, s.args)

  -- One round of `reswitch` at a character of the kind `k`; behind a digit of a width, `in_digits` is true and the
  -- precision is the number read so far.
  unfoldable pub switch : Kind → Bool → ℕ → Spec → List ℕ → List ℕ → Round
  switch minus in_digits ch s rest last_fmt = again false (record s { padc = b'-' })
  switch zeros in_digits ch s rest last_fmt = again false (record s { padc = b'0' })
  switch number in_digits ch s rest last_fmt =
      let before = if in_digits then pos_part s.precision else 0 in
      again true (record s { precision = pos (before * 10 + ch - b'0') })
  switch star in_digits ch s rest last_fmt = elim s.args [
    | [] ↦ over none
    | arg ∷ args ↦
        let n = if ltb (u32 arg) (2 ^ 31) then pos (u32 arg) else negsuc (2 ^ 32 - 1 - u32 arg) in
        again false (process_precision (record s { precision = n; args = args }))
  ]
  switch dot in_digits ch s rest last_fmt =
      again false (record s { width = if ltb_ℤ s.width (pos 0) then pos 0 else s.width })
  switch sharp in_digits ch s rest last_fmt = again false s
  switch long in_digits ch s rest last_fmt = again false (record s { lflag = s.lflag + 1 })
  switch other in_digits ch s rest last_fmt = over (convert other ch s rest last_fmt)

  -- From `reswitch` on. Behind the last digit of a width `process_precision` follows.
  unfoldable pub escape : Bool → Spec → List ℕ → List ℕ → Option Printed
  escape digits s [] last_fmt = some (b'%' ∷ [], last_fmt, s.args)
  escape digits s (ch ∷ rest) last_fmt =
      let in_digits = digits && leb b'0' ch && leb ch b'9' in
      let s₁ = if digits && not in_digits then process_precision s else s in
      elim (switch (if in_digits then number else kind ch) in_digits ch s₁ rest last_fmt) [
        | again digits' s₂ ↦ escape digits' s₂ rest last_fmt
        | over printed ↦ printed
      ]

  -- The loop of `vprintfmt`, with the rounds that are left.
  unfoldable pub vprintfmt : ℕ → List ℕ → List ℕ → Option (List ℕ)
  vprintfmt zero fmt args = none
  vprintfmt (suc fuel) [] args = some []
  vprintfmt (suc fuel) (ch ∷ fmt) args =
      let start : Spec = record {
        padc = b' ';
        width = negsuc 0;
        precision = negsuc 0;
        lflag = 0;
        args = args;
      } in
      elim (ch == b'%') [
        | true ↦ elim (escape false start fmt fmt) [
          | none ↦ none
          | some (out, rest, args') ↦ elim (vprintfmt fuel rest args') [
            | none ↦ none
            | some more ↦ some (out ++ more)
          ]
        ]
        | false ↦ elim (vprintfmt fuel fmt args) [ none ↦ none | some more ↦ some (ch ∷ more) ]
      ]
