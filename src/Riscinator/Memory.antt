-- ===== src/Riscinator/Memory.antt =====
-- What `simulate` of riscinator/riscinator-main.cpp leaves of the memory.
use arc_tests.Prelude.{
  ℕ, zero, suc, ◌≤◌, ◌<◌, ◌≡◌, ◌⊎◌, inl, inr, refl, ap, ◌∙◌, sym, Bool, true, some, Option-cases,
  ltb, arith,
}
use arc_tests.Riscinator.{Core}
use arc_tests.Riscinator.Words.{addr2idx}
use arc_tests.Riscinator.Simulate.{
  Bench, Step, next, stop, fault, answer, fetch_instruction, write_word, access, cycle, cycles,
  simulate,
}

-- The words that are not part of the memory are kept.
abbrev pub Keeps : {M : Type 0} → ℕ → Bench M → Bench M → Type 0
Keeps len b b' = (i : ℕ) → len ≤ i → b'.mem i ≡ b.mem i

module _ {M : Type 0} (c : Core M) (len base : ℕ) where
  pub Step-cases :
      (s : Step M) → ((b : Bench M) × (s ≡ next b)) ⊎ (((b : Bench M) × (s ≡ stop b)) ⊎ (s ≡ fault))
  Step-cases (next b) = inl (b, refl)
  Step-cases (stop b) = inr (inl (b, refl))
  Step-cases fault = inr (inr refl)

  fetch_keeps :
      (b b' : Bench M)
      → fetch_instruction c len base (answer c b) ≡ some b'
      → (b'.mem ≡ b.mem) × (b'.finished ≡ b.finished)
  unfolding fetch_instruction answer
  fetch_keeps b b' e = (ground arith, ground arith)

  access_mem :
      (b b' : Bench M)
      → access c len base b ≡ next b'
      → (b'.mem ≡ b.mem)
        ⊎ ((ltb (addr2idx (c.dmem_addr b.core) base) len ≡ true)
            × (b'.mem
                ≡ write_word c
                    (addr2idx (c.dmem_addr b.core) base)
                    (c.dmem_wdata b.core)
                    (c.dmem_be b.core)
                    b.mem))
  unfolding access
  access_mem b b' e = ground arith

  write_word_outside :
      (idx word be i : ℕ) (mem : ℕ → ℕ) → idx < i → write_word c idx word be mem i ≡ mem i
  unfolding write_word
  write_word_outside idx word be i mem h = ground arith

  access-next :
      (b b' : Bench M) → access c len base b ≡ next b' → Keeps len b b' × (b'.finished ≡ b.finished)
  unfolding access
  access-next b b' e = (
    λ i h. elim (access_mem b b' e) [
      | inl same ↦ ap (λ mem. mem i) same
      | inr (inside, written) ↦
          ap (λ mem. mem i) written
          ∙ write_word_outside (addr2idx (c.dmem_addr b.core) base) (c.dmem_wdata b.core)
              (c.dmem_be b.core) i b.mem (ground arith)
    ],
    ground arith,
  )

  access-stop :
      (b b' : Bench M) → access c len base b ≡ stop b' → (b'.mem ≡ b.mem) × (b'.finished ≡ true)
  unfolding access
  access-stop b b' e = (ground arith, ground arith)

  cycle-next :
      (b b' : Bench M) → cycle c len base b ≡ next b' → Keeps len b b' × (b'.finished ≡ b.finished)
  unfolding cycle
  cycle-next b b' e = elim (Option-cases (fetch_instruction c len base (answer c b))) [
    | inl failed ↦ absurd (ground (arith, failed, e))
    | inr (b₁, one) ↦ elim (Step-cases (access c len base b₁)) [
      | inl (b₂, two) ↦
          let f = fetch_keeps b b₁ one in
          let a = access-next b₁ b₂ two in
          let same : b'.mem ≡ b₂.mem = ground (arith, one, two, e) in
          let done : b'.finished ≡ b₂.finished = ground (arith, one, two, e) in
          (λ i h. ap (λ mem. mem i) same ∙ a.0 i h ∙ ap (λ mem. mem i) f.0, done ∙ a.1 ∙ f.1)
      | inr (inl (b₂, two)) ↦ absurd (ground (arith, one, two, e))
      | inr (inr two) ↦ absurd (ground (arith, one, two, e))
    ]
  ]

  cycle-stop :
      (b b' : Bench M) → cycle c len base b ≡ stop b' → Keeps len b b' × (b'.finished ≡ true)
  unfolding cycle
  cycle-stop b b' e = elim (Option-cases (fetch_instruction c len base (answer c b))) [
    | inl failed ↦ absurd (ground (arith, failed, e))
    | inr (b₁, one) ↦ elim (Step-cases (access c len base b₁)) [
      | inl (b₂, two) ↦ absurd (ground (arith, one, two, e))
      | inr (inl (b₂, two)) ↦
          let f = fetch_keeps b b₁ one in
          let a = access-stop b₁ b₂ two in
          let same : b'.mem ≡ b₂.mem = ground (arith, one, two, e) in
          let done : b'.finished ≡ b₂.finished = ground (arith, one, two, e) in
          (λ i h. ap (λ mem. mem i) (same ∙ a.0 ∙ f.0), done ∙ a.1)
      | inr (inr two) ↦ absurd (ground (arith, one, two, e))
    ]
  ]

  cycles-Keeps : (left : ℕ) (b b' : Bench M) → cycles c left len base b ≡ some b' → Keeps len b b'
  unfolding cycles
  cycles-Keeps zero b b' e i h = ground arith
  cycles-Keeps (suc left) b b' e i h = elim (Step-cases (cycle c len base b)) [
    | inl (b₁, one) ↦
        cycles-Keeps left b₁ b' (ground (arith, one, e)) i h ∙ (cycle-next b b₁ one).0 i h
    | inr (inl (b₁, one)) ↦
        let same : b₁ ≡ b' = ground (arith, one, e) in
        ap (λ (b : Bench M). b.mem i) (sym same) ∙ (cycle-stop b b₁ one).0 i h
    | inr (inr one) ↦ absurd (ground (arith, one, e))
  ]

  -- A simulation that ends without a failed assertion has not touched a word behind the `len` words of its
  -- memory, whatever addresses the core puts on its ports.
  pub simulate-Keeps :
      (max_cycles : ℕ) (finished : Bool) (core : M) (mem : ℕ → ℕ) (b : Bench M)
      → simulate c max_cycles len base finished core mem ≡ some b
      → (i : ℕ) → len ≤ i
      → b.mem i ≡ mem i
  unfolding simulate
  simulate-Keeps max_cycles finished core mem b e i h = cycles-Keeps max_cycles _ b e i h
