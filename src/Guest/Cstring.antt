-- ===== src/Guest/Cstring.antt =====
-- What the string functions of benchmarks/common/syscalls.c compute, of the texts that end in a NUL.
use arc_tests.Prelude.{
  ℕ, zero, suc, ◌+◌, ◌-◌, ◌<◌, ◌≡◌, ◌⊎◌, ◌↔◌, refl, arith, some, ◌==◌, leb, ◌&&◌, if◌then◌else◌,
  min, List, [], ◌∷◌, length,
}
use native.Mathlib.Nat.{add-zero}
use arc_tests.Prelude.Int.{ℤ, pos, sub_ℕ}
use arc_tests.Guest.Memory.{Mem, poke}
use arc_tests.Guest.Strings.{skip_string, strlen, skip_bounded, strnlen, strcmp, strcpy}

-- `text` stands at `p`, and a NUL behind it.
abbrev pub Holds : Mem → ℕ → List ℕ → Type 0
Holds mem p [] = mem p ≡ 0
Holds mem p (c ∷ cs) = (mem p ≡ c) × (0 < c) × Holds mem (p + 1) cs

-- `strlen` returns the length of the text that it is given, with more rounds of fuel than that.
skip_string_lem :
    (text : List ℕ) (fuel : ℕ) (mem : Mem) (p : ℕ)
    → Holds mem p text
    → length text < fuel
    → skip_string fuel mem p ≡ some (p + length text)
unfolding skip_string
skip_string_lem text zero mem p h lt = absurd (omega arith)
skip_string_lem [] (suc fuel) mem p h lt = ground (arith, add-zero p)
skip_string_lem (c ∷ cs) (suc fuel) mem p h lt =
    ground (arith, skip_string_lem cs fuel mem (p + 1) h.2)

-- `strlen` returns the length of the text at its pointer.
pub strlen_lem :
    (text : List ℕ) (fuel : ℕ) (mem : Mem) (p : ℕ)
    → Holds mem p text
    → length text < fuel
    → strlen fuel mem p ≡ some (length text)
unfolding strlen
strlen_lem text fuel mem p h lt = ground (arith, skip_string_lem text fuel mem p h lt)

skip_bounded_lem :
    (text : List ℕ) (n : ℕ) (mem : Mem) (p : ℕ)
    → Holds mem p text
    → skip_bounded n mem p ≡ p + min n (length text)
unfolding skip_bounded
skip_bounded_lem text zero mem p h = omega arith
skip_bounded_lem [] (suc n) mem p h = ground arith
skip_bounded_lem (c ∷ cs) (suc n) mem p h = ground (arith, skip_bounded_lem cs n mem (p + 1) h.2)

-- `strnlen` returns the length of the text at its pointer, cut at its bound.
strnlen_lem :
    (text : List ℕ) (n : ℕ) (mem : Mem) (p : ℕ)
    → Holds mem p text
    → strnlen mem p n ≡ min n (length text)
unfolding strnlen
strnlen_lem text n mem p h = omega (arith, skip_bounded_lem text n mem p h)

-- The first difference of two texts, the NUL behind each of them included.
unfoldable pub difference : List ℕ → List ℕ → ℤ
difference [] [] = pos 0
difference [] (d ∷ ds) = sub_ℕ 0 d
difference (c ∷ cs) [] = sub_ℕ c 0
difference (c ∷ cs) (d ∷ ds) = if c == d then difference cs ds else sub_ℕ c d

-- Two texts of non-NUL bytes have no difference exactly if they are the same.
abbrev pub IsText : List ℕ → Type 0
IsText [] = Unit
IsText (c ∷ cs) = (0 < c) × IsText cs

difference-eq-zero_iff :
    (xs ys : List ℕ) → IsText xs → IsText ys → (difference xs ys ≡ pos 0) ↔ (xs ≡ ys)
unfolding difference
difference-eq-zero_iff [] [] hx hy = (λ _. refl, λ _. refl)
difference-eq-zero_iff [] (d ∷ ds) hx hy = ground arith
difference-eq-zero_iff (c ∷ cs) [] hx hy = ground arith
difference-eq-zero_iff (c ∷ cs) (d ∷ ds) hx hy =
    ground (arith, difference-eq-zero_iff cs ds hx.1 hy.1)

strcmp-difference :
    (xs ys : List ℕ) (fuel : ℕ) (mem : Mem) (s1 s2 : ℕ)
    → Holds mem s1 xs
    → Holds mem s2 ys
    → length xs < fuel
    → strcmp fuel mem s1 s2 ≡ some (difference xs ys)
unfolding strcmp difference
strcmp-difference xs ys zero mem s1 s2 hx hy lt = absurd (omega arith)
strcmp-difference [] [] (suc fuel) mem s1 s2 hx hy lt = ground arith
strcmp-difference [] (d ∷ ds) (suc fuel) mem s1 s2 hx hy lt = ground arith
strcmp-difference (c ∷ cs) [] (suc fuel) mem s1 s2 hx hy lt = ground arith
strcmp-difference (c ∷ cs) (d ∷ ds) (suc fuel) mem s1 s2 hx hy lt =
    ground (arith, strcmp-difference cs ds fuel mem (s1 + 1) (s2 + 1) hx.2 hy.2)

Holds-IsText : (text : List ℕ) (mem : Mem) (p : ℕ) → Holds mem p text → IsText text
Holds-IsText [] mem p h = tt
Holds-IsText (c ∷ cs) mem p h = (h.1, Holds-IsText cs mem (p + 1) h.2)

-- `strcmp` of two texts returns, and the result is the difference of the first bytes that differ, a NUL
-- standing behind each text; it is 0 exactly if the texts are the same.
pub strcmp_lem :
    (xs ys : List ℕ) (fuel : ℕ) (mem : Mem) (s1 s2 : ℕ)
    → Holds mem s1 xs
    → Holds mem s2 ys
    → length xs < fuel
    → (strcmp fuel mem s1 s2 ≡ some (difference xs ys))
      × ((strcmp fuel mem s1 s2 ≡ some (pos 0)) ↔ (xs ≡ ys))
strcmp_lem xs ys fuel mem s1 s2 hx hy lt = ground (
  arith,
  strcmp-difference xs ys fuel mem s1 s2 hx hy lt,
  difference-eq-zero_iff xs ys (Holds-IsText xs mem s1 hx) (Holds-IsText ys mem s2 hy),
)

Holds-poke :
    (text : List ℕ) (mem : Mem) (p q c : ℕ)
    → (q < p) ⊎ (p + length text < q)
    → Holds mem p text
    → Holds (poke mem q c) p text
Holds-poke [] mem p q c out h = ground arith
Holds-poke (d ∷ ds) mem p q c out h =
    (ground arith, h.1, Holds-poke ds mem (p + 1) q c (ground arith) h.2)

-- `strcpy` of a text to a place that it does not overlap returns; the text and its NUL stand at the destination, and every
-- other byte is as before.
strcpy_lem :
    (text : List ℕ) (fuel : ℕ) (mem : Mem) (dest src : ℕ)
    → Holds mem src text
    → (dest + length text < src) ⊎ (src + length text < dest)
    → length text < fuel
    → (mem' : Mem) × (strcpy fuel mem dest src ≡ some mem')
      × ((q : ℕ)
          → mem' q
            ≡ (if leb dest q && leb q (dest + length text) then mem (src + (q - dest)) else mem q))
unfolding strcpy
strcpy_lem text zero mem dest src h apart lt = absurd (omega arith)
strcpy_lem [] (suc fuel) mem dest src h apart lt =
    (poke mem dest (mem src), ground arith, λ q. ground arith)
strcpy_lem (c ∷ cs) (suc fuel) mem dest src h apart lt =
    let mem₁ = poke mem dest (mem src) in
    let (mem', runs, copied) =
      strcpy_lem cs fuel mem₁ (dest + 1) (src + 1)
        (Holds-poke cs mem (src + 1) dest (mem src) (ground arith) h.2) (ground arith)
        (omega arith) in
    (mem', ground (arith, runs), λ q. ground (arith, copied q))
