-- ===== src/Guest/Format/Laws.antt =====
-- How `vprintfmt` of benchmarks/common/syscalls.c gets through a format.
use arc_tests.Prelude.{
  u32, ℕ, zero, suc, ◌-◌, ◌≤◌, ◌<◌, ◌^◌, ◌≡◌, ◌≢◌, refl, ap, ◌∙◌, Bool, true, false, Option, none,
  some, ltb, leb, ◌==◌, if◌then◌else◌, List, [], ◌∷◌, ◌++◌, length, arith, Bool-cases, inl, inr,
}
use mathlib.Core.Option
use arc_tests.Prelude.Int.{pos, negsuc}
use arc_tests.Guest.Number.{printnum}
use arc_tests.Guest.Format.{
  Spec, Kind, minus, zeros, number, star, dot, sharp, long, char, string, decimal, unsigned, octal,
  pointer, hexadecimal, percent, unknown, Printed, Round, again, over, with_arg, print_number,
  getint, convert, switch, escape, vprintfmt, process_precision,
}

-- A conversion leaves no more of the format than it was given.
abbrev Fits : List ℕ → Option Printed → Type 0
Fits last_fmt none = Unit
Fits last_fmt (some (out, rest, args)) = length rest ≤ length last_fmt

abbrev RoundFits : List ℕ → Round → Type 0
RoundFits last_fmt (again digits s) = Unit
RoundFits last_fmt (over printed) = Fits last_fmt printed

with_arg-Fits :
    (last_fmt args : List ℕ) (k : ℕ → List ℕ → Option Printed)
    → ((arg : ℕ) (rest : List ℕ) → Fits last_fmt (k arg rest))
    → Fits last_fmt (with_arg args k)
with_arg-Fits last_fmt [] k h = tt
with_arg-Fits last_fmt (arg ∷ args) k h = h arg args

print_number-Fits :
    (last_fmt front : List ℕ) (num base : ℕ) (s : Spec) (rest args : List ℕ)
    → length rest ≤ length last_fmt
    → Fits last_fmt (print_number front num base s rest args)
unfolding print_number
print_number-Fits last_fmt front num base s rest args h = printed (printnum num base s.width s.padc)
  where
    printed :
        (o : Option (List ℕ))
        → Fits last_fmt (elim o [ none ↦ none | some digits ↦ some (front ++ digits, rest, args) ])
    printed none = tt
    printed (some digits) = h

if-Fits :
    (last_fmt : List ℕ) (b : Bool) (x y : Option Printed)
    → Fits last_fmt x
    → Fits last_fmt y
    → Fits last_fmt (if b then x else y)
if-Fits last_fmt true x y hx hy = hx
if-Fits last_fmt false x y hx hy = hy

module _ (text_at : ℕ → List ℕ) (last_fmt : List ℕ) where
  convert-Fits :
      (k : Kind) (ch : ℕ) (s : Spec) (rest : List ℕ)
      → length rest ≤ length last_fmt
      → Fits last_fmt (convert text_at k ch s rest last_fmt)
  unfolding convert
  convert-Fits char ch s rest h = with_arg-Fits last_fmt s.args _ (λ arg args. h)
  convert-Fits string ch s rest h = with_arg-Fits last_fmt s.args _ (λ arg args. h)
  convert-Fits decimal ch s rest h = with_arg-Fits last_fmt s.args _ (λ arg args.
      if-Fits last_fmt (leb (2 ^ 63) (getint s.lflag arg)) _ _
        (print_number-Fits last_fmt _ _ _ s rest args h)
        (print_number-Fits last_fmt _ _ _ s rest args h))
  convert-Fits unsigned ch s rest h =
      with_arg-Fits last_fmt s.args _ (λ arg args. print_number-Fits last_fmt _ _ _ s rest args h)
  convert-Fits octal ch s rest h =
      with_arg-Fits last_fmt s.args _ (λ arg args. print_number-Fits last_fmt _ _ _ s rest args h)
  convert-Fits pointer ch s rest h =
      with_arg-Fits last_fmt s.args _ (λ arg args. print_number-Fits last_fmt _ _ _ s rest args h)
  convert-Fits hexadecimal ch s rest h =
      with_arg-Fits last_fmt s.args _ (λ arg args. print_number-Fits last_fmt _ _ _ s rest args h)
  convert-Fits percent ch s rest h = h
  convert-Fits minus ch s rest h = omega arith
  convert-Fits zeros ch s rest h = omega arith
  convert-Fits number ch s rest h = omega arith
  convert-Fits star ch s rest h = omega arith
  convert-Fits dot ch s rest h = omega arith
  convert-Fits sharp ch s rest h = omega arith
  convert-Fits long ch s rest h = omega arith
  convert-Fits unknown ch s rest h = omega arith

  switch-RoundFits :
      (k : Kind) (in_digits : Bool) (ch : ℕ) (s : Spec) (rest : List ℕ)
      → length rest ≤ length last_fmt
      → RoundFits last_fmt (switch text_at k in_digits ch s rest last_fmt)
  unfolding switch
  switch-RoundFits minus in_digits ch s rest h = tt
  switch-RoundFits zeros in_digits ch s rest h = tt
  switch-RoundFits number in_digits ch s rest h = tt
  switch-RoundFits star in_digits ch s rest h = taken s.args
    where
      taken :
          (args : List ℕ)
          → RoundFits last_fmt (elim args [
            | [] ↦ over none
            | arg ∷ more ↦
                let n =
                  if ltb (u32 arg) (2 ^ 31) then pos (u32 arg) else negsuc (2 ^ 32 - 1 - u32 arg) in
                again false (process_precision (record s { precision = n; args = more }))
          ])
      taken [] = tt
      taken (arg ∷ more) = tt
  switch-RoundFits dot in_digits ch s rest h = tt
  switch-RoundFits sharp in_digits ch s rest h = tt
  switch-RoundFits long in_digits ch s rest h = tt
  switch-RoundFits char in_digits ch s rest h = convert-Fits char ch s rest h
  switch-RoundFits string in_digits ch s rest h = convert-Fits string ch s rest h
  switch-RoundFits decimal in_digits ch s rest h = convert-Fits decimal ch s rest h
  switch-RoundFits unsigned in_digits ch s rest h = convert-Fits unsigned ch s rest h
  switch-RoundFits octal in_digits ch s rest h = convert-Fits octal ch s rest h
  switch-RoundFits pointer in_digits ch s rest h = convert-Fits pointer ch s rest h
  switch-RoundFits hexadecimal in_digits ch s rest h = convert-Fits hexadecimal ch s rest h
  switch-RoundFits percent in_digits ch s rest h = convert-Fits percent ch s rest h
  switch-RoundFits unknown in_digits ch s rest h = convert-Fits unknown ch s rest h

  resume-Fits :
      (r : Round) (rest : List ℕ)
      → RoundFits last_fmt r
      → ((digits : Bool) (s : Spec) → Fits last_fmt (escape text_at digits s rest last_fmt))
      → Fits last_fmt (elim r [
        | again digits s ↦ escape text_at digits s rest last_fmt
        | over printed ↦ printed
      ])
  resume-Fits (again digits s) rest h next = next digits s
  resume-Fits (over printed) rest h next = h

  escape-Fits :
      (rest : List ℕ) (digits : Bool) (s : Spec)
      → length rest ≤ length last_fmt
      → Fits last_fmt (escape text_at digits s rest last_fmt)
  unfolding escape
  escape-Fits [] digits s h = omega arith
  escape-Fits (ch ∷ rest) digits s h =
      resume-Fits _ rest (switch-RoundFits _ _ ch _ rest (omega (arith, h)))
        (λ digits' s'. escape-Fits rest digits' s' (omega (arith, h)))

module _ (text_at : ℕ → List ℕ) where
  -- What is behind a conversion, for the loop.
  behind :
      (o : Option Printed) (last_fmt : List ℕ) (f g : ℕ)
      → Fits last_fmt o
      → ((rest args : List ℕ)
          → length rest ≤ length last_fmt
          → vprintfmt text_at f rest args ≡ vprintfmt text_at g rest args)
      → (elim o as (λ _. Option (List ℕ)) [
        | none ↦ none
        | some (out, rest, args') ↦ elim (vprintfmt text_at f rest args') [
          | none ↦ none
          | some more ↦ some (out ++ more)
        ]
      ])
        ≡ (elim o as (λ _. Option (List ℕ)) [
          | none ↦ none
          | some (out, rest, args') ↦ elim (vprintfmt text_at g rest args') [
            | none ↦ none
            | some more ↦ some (out ++ more)
          ]
        ])
  behind none last_fmt f g fits same = refl
  behind (some (out, rest, args')) last_fmt f g fits same = rw (same rest args' fits) refl

  -- Any two amounts of fuel above the length of the format give `vprintfmt` the same result.
  vprintfmt_fuel :
      (f g : ℕ) (fmt args : List ℕ)
      → length fmt < f
      → length fmt < g
      → vprintfmt text_at f fmt args ≡ vprintfmt text_at g fmt args
  unfolding vprintfmt
  vprintfmt_fuel zero g fmt args hf hg = absurd (omega (arith, hf))
  vprintfmt_fuel (suc f) zero fmt args hf hg = absurd (omega (arith, hg))
  vprintfmt_fuel (suc f) (suc g) [] args hf hg = refl
  vprintfmt_fuel (suc f) (suc g) (ch ∷ fmt) args hf hg = elim (Bool-cases (ch == b'%')) [
    | inl mark ↦
        rw (mark, vprintfmt)
          (behind _ fmt f g (escape-Fits text_at fmt fmt false _ (omega arith)) (λ rest args' le.
            vprintfmt_fuel f g rest args' (omega (arith, le, hf)) (omega (arith, le, hg))))
    | inr text ↦
        rw (text, vprintfmt)
          (ap (λ o. elim o as (λ _. Option (List ℕ)) [ none ↦ none | some more ↦ some (ch ∷ more) ])
            (vprintfmt_fuel f g fmt args (omega (arith, hf)) (omega (arith, hg))))
  ]

-- A text with no '%' in it.
abbrev pub IsPlain : List ℕ → Type 0
IsPlain [] = Unit
IsPlain (c ∷ cs) = (c ≢ b'%') × IsPlain cs

map-nil : (o : Option (List ℕ)) → o ≡ Option.map (λ out. [] ++ out) o
map-nil none = refl
map-nil (some out) = refl

map-cons :
    (c : ℕ) (cs : List ℕ) (o : Option (List ℕ))
    → (elim (Option.map (λ out. cs ++ out) o) as (λ _. Option (List ℕ)) [
      | none ↦ none
      | some more ↦ some (c ∷ more)
    ])
      ≡ Option.map (λ out. (c ∷ cs) ++ out) o
map-cons c cs none = refl
map-cons c cs (some out) = refl

module _ (text_at : ℕ → List ℕ) where
  -- With fuel above the lengths of the formats, a text with no '%' in front of a format is printed as it
  -- stands, and then what the format prints from the same arguments.
  pub vprintfmt-append :
      (text fmt args : List ℕ) (f g : ℕ)
      → IsPlain text
      → length (text ++ fmt) < g
      → length fmt < f
      → vprintfmt text_at g (text ++ fmt) args
        ≡ Option.map (λ out. text ++ out) (vprintfmt text_at f fmt args)
  unfolding vprintfmt
  vprintfmt-append [] fmt args f g plain hg hf =
      vprintfmt_fuel text_at g f fmt args hg hf ∙ map-nil (vprintfmt text_at f fmt args)
  vprintfmt-append (c ∷ cs) fmt args f zero plain hg hf = absurd (omega (arith, hg))
  vprintfmt-append (c ∷ cs) fmt args f (suc g) plain hg hf =
      let other : (c == b'%') ≡ false = ground (arith, plain.0) in
      let rest = vprintfmt-append cs fmt args f g plain.1 (omega (arith, hg)) hf in
      rw (other, vprintfmt)
        (ap (λ o. elim o as (λ _. Option (List ℕ)) [ none ↦ none | some more ↦ some (c ∷ more) ])
            rest
          ∙ map-cons c cs (vprintfmt text_at f fmt args))
