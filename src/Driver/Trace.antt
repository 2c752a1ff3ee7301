-- ===== src/Driver/Trace.antt =====
-- `vcd_start` of `ComparingRocketModel` in rocket/rocket-main.cpp: a trace file for each model.
use arc_tests.Prelude.{
  ℕ, suc, ◌≡◌, ◌≢◌, refl, ap, ◌∙◌, Option, none, some, ◌==◌, if◌then◌else◌, List, [], ◌∷◌, ◌++◌,
  take, drop, length, arith,
}
use mathlib.Core.Option
use arc_tests.Driver.{Design}
use arc_tests.Driver.Compare.{Comparing}
use arc_tests.Driver.Args.{Text}

-- `rfind('.')`; `none` is `npos`.
unfoldable pub rfind : ℕ → Text → Option ℕ
rfind c [] = none
rfind c (d ∷ ds) = elim (rfind c ds) [
  | some i ↦ some (suc i)
  | none ↦ if d == c then some 0 else none
]

-- `insert(pos, text)`.
abbrev pub insert_at : ℕ → Text → Text → Text
insert_at pos text file = take pos file ++ (text ++ drop pos file)

-- The name of one model's file. `none` is the exception that `insert` throws at `npos`.
unfoldable pub extend_file : Text → Text → Option Text
extend_file file name =
    Option.map (λ pos. insert_at pos (b'-' ∷ []) (insert_at pos name file)) (rfind b'.' file)

module _ {M : Type 0} (d : Design M) where
  -- The loop over the models.
  unfoldable pub start_traces : Text → List M → Option (List M)
  start_traces file [] = some []
  start_traces file (m ∷ ms) = elim (extend_file file (d.name m)) [
    | none ↦ none
    | some extended ↦ Option.map (λ rest. d.vcd_start extended m ∷ rest) (start_traces file ms)
  ]

  unfoldable pub vcd_start : Text → Comparing M → Option (Comparing M)
  vcd_start file c = Option.map (λ ms. record c { models = ms }) (start_traces file c.models)

-- A text in which a character does not occur.
abbrev pub Lacks : ℕ → Text → Type 0
Lacks c [] = Unit
Lacks c (d ∷ ds) = (d ≢ c) × Lacks c ds

rfind-none : (c : ℕ) (text : Text) → Lacks c text → rfind c text ≡ none
unfolding rfind
rfind-none c [] h = refl
rfind-none c (d ∷ ds) h = ground (arith, rfind-none c ds h.1, h.0)

rfind-last :
    (c : ℕ) (base ext : Text) → Lacks c ext → rfind c (base ++ c ∷ ext) ≡ some (length base)
unfolding rfind
rfind-last c [] ext h = ground (arith, rfind-none c ext h)
rfind-last c (d ∷ ds) ext h = ground (arith, rfind-last c ds ext h)

take-length-append : (xs ys : Text) → take (length xs) (xs ++ ys) ≡ xs
take-length-append [] ys = refl
take-length-append (x ∷ xs) ys = ap (λ l. x ∷ l) (take-length-append xs ys)

drop-length-append : (xs ys : Text) → drop (length xs) (xs ++ ys) ≡ ys
drop-length-append [] ys = refl
drop-length-append (x ∷ xs) ys = drop-length-append xs ys

insert_at-length : (xs ys text : Text) → insert_at (length xs) text (xs ++ ys) ≡ xs ++ (text ++ ys)
insert_at-length xs ys text = rw (take-length-append xs ys, drop-length-append xs ys) refl

-- The trace of a model goes to the file that is asked for with a dash and the model's name in front of the last
-- dot. For a file with no dot in its name there is no such file: `vcd_start` throws.
pub extend_file_lem :
    (base ext name : Text)
    → Lacks b'.' ext
    → (extend_file (base ++ b'.' ∷ ext) name ≡ some (base ++ b'-' ∷ (name ++ b'.' ∷ ext)))
      × (extend_file ext name ≡ none)
unfolding extend_file
extend_file_lem base ext name h = (
  rw (rfind-last b'.' base ext h, extend_file)
      (ap some (
        ap (insert_at (length base) (b'-' ∷ [])) (insert_at-length base (b'.' ∷ ext) name)
        ∙ insert_at-length base (name ++ b'.' ∷ ext) (b'-' ∷ []))),
  rw (rfind-none b'.' ext h, extend_file) refl,
)
