-- ===== src/Guest/Print.antt =====
-- `printf` and `sprintf` of benchmarks/common/syscalls.c: `vprintfmt` with a `putch`. The texts that the arguments point
-- to are those before the call: `sprintf` does not write over what it reads.
pub mod Tests
use arc_tests.Prelude.{
  Bool-cases, ℕ, zero, suc, ◌+◌, ◌-◌, ◌^◌, ◌<◌, ◌≤◌, ◌≡◌, ◌≢◌, ◌⊎◌, inl, inr, refl, ap, ◌∙◌, sym,
  arith, Option, none, some, ◌==◌, ltb, leb, ◌&&◌, if◌then◌else◌, List, [], ◌∷◌, ◌++◌, length, u8,
}
use native.Mathlib.Nat.{add-zero}
use mathlib.Core.Path.{subst}
use arc_tests.Guest.Memory.{Mem, IsBytes, poke}
use arc_tests.Guest.Cstring.{Holds}
use arc_tests.Guest.Format.{vprintfmt}
use arc_tests.Guest.Stdio.{Output, putchar}
use arc_tests.Guest.Syscall.{Bus, ◌>>=◌}

-- The calls of `sprintf_putch`, one for each character: the memory, and where `str` points then.
unfoldable pub write_text : Mem → ℕ → List ℕ → Mem × ℕ
write_text mem str [] = (mem, str)
write_text mem str (ch ∷ chars) = write_text (poke mem str (u8 ch)) (str + 1) chars

-- The memory behind the call, and what is returned. A length beyond `int` is not cut.
unfoldable pub sprintf : (ℕ → List ℕ) → ℕ → Mem → ℕ → List ℕ → List ℕ → Option (Mem × ℕ)
sprintf text_at fuel mem str0 fmt args = elim (vprintfmt text_at fuel fmt args) [
  | none ↦ none
  | some chars ↦ let (mem', str) = write_text mem str0 chars in some (poke mem' str 0, str - str0)
]

module _ {S : Type 0} (bus : Bus S) (polls buf : ℕ) where
  -- The calls of `putchar`.
  unfoldable pub put_all : Output S → List ℕ → Option (Output S)
  put_all out [] = some out
  put_all out (ch ∷ chars) = elim (putchar bus polls buf out ch) [
    | none ↦ none
    | some out' ↦ put_all out' chars
  ]

  unfoldable pub printf : (ℕ → List ℕ) → ℕ → Output S → List ℕ → List ℕ → Option (Output S)
  printf text_at fuel out fmt args = elim (vprintfmt text_at fuel fmt args) [
    | none ↦ none
    | some chars ↦ put_all out chars
  ]

-- The characters are bytes, and none is NUL.
abbrev pub IsText : List ℕ → Type 0
IsText [] = Unit
IsText (c ∷ cs) = (0 < c) × (c < 2 ^ 8) × IsText cs

write_text_end :
    (chars : List ℕ) (mem : Mem) (str : ℕ) → (write_text mem str chars).1 ≡ str + length chars
unfolding write_text
write_text_end [] mem str = sym (add-zero str)
write_text_end (c ∷ cs) mem str = omega (arith, write_text_end cs (poke mem str (u8 c)) (str + 1))

pub write_text_outside :
    (chars : List ℕ) (mem : Mem) (str q : ℕ)
    → (q < str) ⊎ (str + length chars ≤ q)
    → (write_text mem str chars).0 q ≡ mem q
unfolding write_text
write_text_outside [] mem str q h = refl
write_text_outside (c ∷ cs) mem str q (inl h) =
    ground (arith, write_text_outside cs (poke mem str (u8 c)) (str + 1) q (inl (omega (arith, h))))
write_text_outside (c ∷ cs) mem str q (inr h) =
    ground (arith, write_text_outside cs (poke mem str (u8 c)) (str + 1) q (inr (omega (arith, h))))

pub write_text-append :
    (xs ys : List ℕ) (mem : Mem) (str : ℕ)
    → write_text mem str (xs ++ ys) ≡ write_text (write_text mem str xs).0 (str + length xs) ys
unfolding write_text
write_text-append [] ys mem str = ap (λ p. write_text mem p ys) (sym (add-zero str))
write_text-append (x ∷ xs) ys mem str =
    let shift : str + 1 + length xs ≡ str + suc (length xs) = omega arith in
    write_text-append xs ys (poke mem str (u8 x)) (str + 1)
    ∙ ap (λ p. write_text (write_text (poke mem str (u8 x)) (str + 1) xs).0 p ys) shift

pub write_text-IsBytes :
    (chars : List ℕ) (mem : Mem) (str : ℕ) → IsBytes mem → IsBytes (write_text mem str chars).0
unfolding write_text
write_text-IsBytes [] mem str bytes = bytes
write_text-IsBytes (c ∷ cs) mem str bytes =
    write_text-IsBytes cs (poke mem str (u8 c)) (str + 1) (λ q. ground (arith, bytes q))

write_text-Holds :
    (chars : List ℕ) (mem : Mem) (str : ℕ)
    → IsText chars
    → Holds (poke (write_text mem str chars).0 (str + length chars) 0) str chars
unfolding write_text
write_text-Holds [] mem str h = ground (arith, add-zero str)
write_text-Holds (c ∷ cs) mem str (h₁, h₂, h₃) =
    let mem₁ = poke mem str (u8 c) in
    let rest = write_text-Holds cs mem₁ (str + 1) h₃ in
    let same = write_text_outside cs mem₁ (str + 1) str (inl (omega arith)) in
    let shift : str + 1 + length cs ≡ str + suc (length cs) = omega arith in
    (
      ground (arith, same),
      h₁,
      subst (λ p. Holds (poke (write_text mem₁ (str + 1) cs).0 p 0) (str + 1) cs) shift rest,
    )

module _ (text_at : ℕ → List ℕ) (fuel : ℕ) (mem : Mem) (str : ℕ) (fmt args text : List ℕ) where
  -- Where `vprintfmt` gives a text of characters that are bytes and no NUL, `sprintf` leaves that text with a NUL behind it at
  -- its pointer, returns the text's length, and changes no other byte.
  pub sprintf_lem :
      vprintfmt text_at fuel fmt args ≡ some text
      → IsText text
      → (mem' : Mem) × (sprintf text_at fuel mem str fmt args ≡ some (mem', length text))
        × Holds mem' str text
        × ((q : ℕ) → mem' q ≡ (if leb str q && leb q (str + length text) then mem' q else mem q))
  unfolding sprintf
  sprintf_lem runs h =
      let written = (write_text mem str text).0 in
      let end = write_text_end text mem str in
      let mem' = poke written (str + length text) 0 in
      let back : str + length text - str ≡ length text = omega arith in
      (
        mem',
        ground (arith, runs, end, back),
        write_text-Holds text mem str h,
        λ q. elim (Bool-cases (ltb q str)) [
          | inl before ↦
              ground (arith, write_text_outside text mem str q (inl (ground (arith, before))))
          | inr from ↦ elim (Bool-cases (leb q (str + length text))) [
            | inl inside ↦ ground (arith, from, inside)
            | inr behind ↦
                ground (arith, write_text_outside text mem str q (inr (ground (arith, behind))))
          ]
        ],
      )
