-- ===== src/Dhrystone/Measure/Lines.antt =====
-- Two lines that `main` of benchmarks/dhrystone/dhrystone_main.c prints, each a label with digits behind it.
use arc_tests.Prelude.{
  ℕ, suc, ◌≡◌, refl, ap, ◌∙◌, sym, arith, some, List, [], ◌∷◌, ◌++◌, length, flatten,
}
use mathlib.Core.List.{append_assoc, append-nil}
use arc_tests.Host.Device.{Host}
use arc_tests.Guest.Memory.{IsBytes}
use arc_tests.Guest.Format.{vprintfmt}
use arc_tests.Guest.Format.Decimal.{AreDigits}
use arc_tests.Guest.Print.{IsText, printf, put_all}
use arc_tests.Guest.Stdio.{Output}
use arc_tests.Guest.Syscall.{◌>>=◌}
use arc_tests.Console.Link.{mmio_bus}
use arc_tests.Console.Lines.{put_all-append}
use arc_tests.Console.Chunks.{chunks, shown, HaveRoom, chunks-line}
use arc_tests.Console.Text.{put_all-text}
use arc_tests.Dhrystone.Measure.{print}

-- A label, and digits behind it, as a line.
abbrev pub line : List ℕ → List ℕ → List ℕ
line label digits = label ++ (digits ++ b'\n' ∷ [])

append-IsText : (xs ys : List ℕ) → IsText xs → IsText ys → IsText (xs ++ ys)
append-IsText [] ys hx hy = hy
append-IsText (x ∷ xs) ys hx hy = (hx.0, hx.1, append-IsText xs ys hx.2 hy)

AreDigits-IsText : (ds : List ℕ) → AreDigits ds → IsText ds
AreDigits-IsText [] h = tt
AreDigits-IsText (d ∷ ds) h = (omega (arith, h.0), omega (arith, h.1), AreDigits-IsText ds h.2)

line-IsText : (label digits : List ℕ) → IsText label → AreDigits digits → IsText (line label digits)
line-IsText label digits h decimal = append-IsText label (digits ++ b'\n' ∷ []) h (
    append-IsText digits (b'\n' ∷ []) (AreDigits-IsText digits decimal)
      (omega arith, omega arith, tt))

regrouped :
    (front label digits : List ℕ)
    → front ++ line label digits ≡ (front ++ (label ++ digits)) ++ b'\n' ∷ []
regrouped front label digits = simp append_assoc

-- Two calls of `printf`, of which the formats and arguments come to two texts.
print_two :
    (polls buf : ℕ) (text_at : ℕ → List ℕ) (fuel : ℕ) (fmt₁ args₁ fmt₂ args₂ xs ys : List ℕ)
    (out : Output Host)
    → vprintfmt text_at fuel fmt₁ args₁ ≡ some xs
    → vprintfmt text_at fuel fmt₂ args₂ ≡ some ys
    → IsBytes out.mem
    → out.buflen ≡ 0
    → IsText xs
    → IsText ys
    → (print mmio_bus (suc polls) buf text_at fuel fmt₁ args₁ out
        >>= print mmio_bus (suc polls) buf text_at fuel fmt₂ args₂)
      ≡ put_all mmio_bus (suc polls) buf out (xs ++ ys)
unfolding printf
print_two polls buf text_at fuel fmt₁ args₁ fmt₂ args₂ xs ys out one two bytes empty hx hy =
    let r = put_all-text polls buf out xs bytes empty hx in
    let first = r.4 in
    let second = put_all-append (suc polls) buf xs ys out r.2 first in
    ground (arith, one, two, first, second)

-- Two lines, and what the driver shows of them.
abbrev pub ShownLines : Output Host → Output Host → List ℕ → List (List ℕ) → List (List ℕ) → Type 0
ShownLines out out' text sent tails =
    (sent ≡ (chunks [] text).0)
    × (flatten sent ≡ text)
    × HaveRoom sent tails
    × (out'.device.console ≡ out.device.console ++ shown sent tails)
    × (out'.device.finished ≡ out.device.finished)
    × (out'.buflen ≡ 0)

pub print_lines :
    (polls buf : ℕ) (text_at : ℕ → List ℕ) (fuel : ℕ)
    (fmt₁ args₁ fmt₂ args₂ label₁ digits₁ label₂ digits₂ : List ℕ) (out : Output Host)
    → vprintfmt text_at fuel fmt₁ args₁ ≡ some (line label₁ digits₁)
    → vprintfmt text_at fuel fmt₂ args₂ ≡ some (line label₂ digits₂)
    → IsBytes out.mem
    → out.buflen ≡ 0
    → IsText label₁
    → AreDigits digits₁
    → IsText label₂
    → AreDigits digits₂
    → (out' : Output Host) × (tails : List (List ℕ)) × ((print mmio_bus
            (suc polls)
            buf
            text_at
            fuel
            fmt₁
            args₁
            out
          >>= print mmio_bus (suc polls) buf text_at fuel fmt₂ args₂)
        ≡ some out')
      × ShownLines out out'
          (line label₁ digits₁ ++ line label₂ digits₂)
          (chunks [] (line label₁ digits₁ ++ line label₂ digits₂)).0
          tails
print_lines polls buf text_at fuel fmt₁ args₁ fmt₂ args₂ label₁ digits₁ label₂ digits₂ out one two
      bytes empty t₁ d₁ t₂ d₂ =
    let h₁ = line-IsText label₁ digits₁ t₁ d₁ in
    let h₂ = line-IsText label₂ digits₂ t₂ d₂ in
    let whole = line label₁ digits₁ ++ line label₂ digits₂ in
    let prints =
      print_two polls buf text_at fuel fmt₁ args₁ fmt₂ args₂ (line label₁ digits₁)
        (line label₂ digits₂) out one two bytes empty h₁ h₂ in
    let q =
      put_all-text polls buf out whole bytes empty
        (append-IsText (line label₁ digits₁) (line label₂ digits₂) h₁ h₂) in
    let sent = (chunks [] whole).0 in
    let none_left : (chunks [] whole).1 ≡ [] =
      ap (λ t. (chunks [] t).1) (regrouped (line label₁ digits₁) label₂ digits₂)
      ∙ chunks-line [] (line label₁ digits₁ ++ (label₂ ++ digits₂)) in
    let whole_sent : flatten sent ≡ whole =
      sym (append-nil (flatten sent)) ∙ ap (λ rest. flatten sent ++ rest) (sym none_left) ∙ q.0 in
    (q.2, q.3, prints ∙ q.4, (refl, whole_sent, q.5, q.6, q.7, q.8 ∙ ap length none_left))
