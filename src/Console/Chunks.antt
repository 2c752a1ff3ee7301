-- ===== src/Console/Chunks.antt =====
-- The chunks in which `putchar` of benchmarks/common/syscalls.c sends a text.
use arc_tests.Prelude.{
  ℕ, ◌+◌, ◌≤◌, ◌≡◌, inl, inr, sym, refl, Bool, ◌==◌, ◌||◌, if◌then◌else◌, List, [], ◌∷◌, ◌++◌,
  length, flatten, Bool-cases,
}
use mathlib.Core.List.{append_assoc, append-nil}

-- A text cut behind each end of a line and wherever 64 characters are together, with `pending` in front; and what is
-- left behind the last cut.
abbrev pub ends_chunk : List ℕ → ℕ → Bool
ends_chunk pending c = c == b'\n' || length pending + 1 == 64

unfoldable pub chunks : List ℕ → List ℕ → List (List ℕ) × List ℕ
chunks pending [] = ([], pending)
chunks pending (c ∷ cs) =
    let ended = chunks [] cs in
    let longer = chunks (pending ++ c ∷ []) cs in
    if ends_chunk pending c then ((pending ++ c ∷ []) ∷ ended.0, ended.1) else longer

-- The chunks, each with a tail behind it.
abbrev pub shown : List (List ℕ) → List (List ℕ) → List ℕ
shown [] tails = []
shown (chunk ∷ rest) [] = []
shown (chunk ∷ rest) (tail ∷ tails) = chunk ++ (tail ++ shown rest tails)

-- As many tails as chunks, each with room for it behind its chunk in 64 bytes.
abbrev pub HaveRoom : List (List ℕ) → List (List ℕ) → Type 0
HaveRoom [] [] = Unit
HaveRoom [] (tail ∷ tails) = ⊥
HaveRoom (chunk ∷ rest) [] = ⊥
HaveRoom (chunk ∷ rest) (tail ∷ tails) = (length chunk + length tail ≤ 64) × HaveRoom rest tails

-- No character is lost, and none changes its place.
pub flatten-chunks :
    (pending text : List ℕ)
    → flatten (chunks pending text).0 ++ (chunks pending text).1 ≡ pending ++ text
unfolding chunks
flatten-chunks pending [] = sym (append-nil pending)
flatten-chunks pending (c ∷ cs) = elim (Bool-cases (ends_chunk pending c)) [
  | inl ended ↦ rw ended (simp (append_assoc, flatten-chunks [] cs))
  | inr longer ↦ rw longer (simp (append_assoc, flatten-chunks (pending ++ c ∷ []) cs))
]

-- The end of a line leaves nothing behind the last cut.
pub chunks-line : (pending text : List ℕ) → (chunks pending (text ++ b'\n' ∷ [])).1 ≡ []
unfolding chunks
chunks-line pending [] = refl
chunks-line pending (c ∷ cs) = elim (Bool-cases (ends_chunk pending c)) [
  | inl ended ↦ rw ended (chunks-line [] cs)
  | inr longer ↦ rw longer (chunks-line (pending ++ c ∷ []) cs)
]
