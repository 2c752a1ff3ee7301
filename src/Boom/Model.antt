-- ===== src/Boom/Model.antt =====
-- `ComparingBoomModel` of boom/boom-main.cpp, over the models as `Design` shows them. What it prints and the times are
-- left out.
use arc_tests.Prelude.{
  ℕ, ◌+◌, ◌≡◌, refl, arith, Bool, true, false, Option, none, some, ◌==◌, if◌then◌else◌, List, [],
  ◌∷◌, map,
}
use arc_tests.Axi.{AxiInputs, AxiOutputs}
use arc_tests.Axi.Port.{no_outputs}
use arc_tests.Driver.{Design}
use arc_tests.Driver.Args.{Text}
use arc_tests.Driver.Compare as Compare
use arc_tests.Driver.Compare.{Comparing, differing, differing_models, mismatches, each}
use arc_tests.Driver.Trace as Trace
use arc_tests.Driver.Trace.{rfind, insert_at, extend_file, start_traces}

-- The inner loop of `compare_ports`, with the count.
unfoldable pub count_ports : List ℕ → List ℕ → ℕ → ℕ
count_ports [] bs n = n
count_ports (a ∷ as') [] n = n
count_ports (a ∷ as') (b ∷ bs) n = count_ports as' bs (if a == b then n else n + 1)

module _ {M : Type 0} (d : Design M) where
  -- The loop of `vcd_start`. `none` is the exception of `insert` at `npos`.
  unfoldable pub open_traces : Text → List M → Option (List M)
  open_traces file [] = some []
  open_traces file (m ∷ ms) = elim (rfind b'.' file) [
    | none ↦ none
    | some pos ↦
        let extended = insert_at pos (b'-' ∷ []) (insert_at pos (d.name m) file) in
        elim (open_traces file ms) [
          | none ↦ none
          | some rest ↦ some (d.vcd_start extended m ∷ rest)
        ]
  ]

  unfoldable pub vcd_start : Text → Comparing M → Option (Comparing M)
  vcd_start file c = elim (open_traces file c.models) [
    | none ↦ none
    | some ms ↦ some (record c { models = ms })
  ]

  unfoldable pub vcd_dump : ℕ → Comparing M → Comparing M
  vcd_dump cycle c = record c { models = map (d.vcd_dump cycle) c.models }

  unfoldable pub eval : Comparing M → Comparing M
  eval c = record c { models = map d.eval c.models }

  unfoldable pub set_clock : Bool → Comparing M → Comparing M
  set_clock clock c = record c { models = map (d.set_clock clock) c.models }

  unfoldable pub set_reset : Bool → Comparing M → Comparing M
  set_reset reset c = record c { models = map (d.set_reset reset) c.models }

  unfoldable pub set_mem : AxiInputs → Comparing M → Comparing M
  set_mem i c = record c { models = map (d.set_mem i) c.models }

  unfoldable pub get_mem : Comparing M → AxiOutputs
  get_mem c = elim c.models [ [] ↦ no_outputs | m ∷ ms ↦ d.get_mem m ]

  unfoldable pub set_mmio : AxiInputs → Comparing M → Comparing M
  set_mmio i c = record c { models = map (d.set_mmio i) c.models }

  unfoldable pub get_mmio : Comparing M → AxiOutputs
  get_mmio c = elim c.models [ [] ↦ no_outputs | m ∷ ms ↦ d.get_mmio m ]

  -- The outer loop of `compare_ports`, with the count.
  unfoldable pub count_models : List ℕ → List M → ℕ → ℕ
  count_models ports [] n = n
  count_models ports (m ∷ ms) n = count_models ports ms (count_ports ports (d.get_ports m) n)

  -- The count behind a comparison; there is none of fewer than two models.
  unfoldable pub compared : List M → ℕ → ℕ
  compared [] n = n
  compared (m ∷ []) n = n
  compared (m ∷ m' ∷ ms) n = count_models (d.get_ports m) (m' ∷ ms) n

  unfoldable pub compare_ports : Comparing M → Comparing M
  compare_ports c = record c { num_mismatches = compared c.models c.num_mismatches }

  unfoldable pub clock : Comparing M → Comparing M
  clock c =
      let c₁ = compare_ports c in
      let c₂ = vcd_dump c₁.cycle c₁ in
      let c₃ = eval (set_clock true c₂) in
      let c₄ = eval (set_clock false c₃) in record c₄ { cycle = c₄.cycle + 1 }

count_ports_same : (as' bs : List ℕ) (n : ℕ) → count_ports as' bs n ≡ n + differing as' bs
unfolding count_ports differing
count_ports_same [] bs n = omega arith
count_ports_same (a ∷ as') [] n = omega arith
count_ports_same (a ∷ as') (b ∷ bs) n =
    ground (arith, count_ports_same as' bs n, count_ports_same as' bs (n + 1))

module _ {M : Type 0} (d : Design M) where
  count_models_same :
      (ports : List ℕ) (ms : List M) (n : ℕ)
      → count_models d ports ms n ≡ n + differing_models d ports ms
  unfolding count_models differing_models
  count_models_same ports [] n = omega arith
  count_models_same ports (m ∷ ms) n =
      let step = count_ports_same ports (d.get_ports m) n in
      let rest = count_models_same ports ms (count_ports ports (d.get_ports m) n) in
      omega (arith, step, rest)

  compared_same : (ms : List M) (n : ℕ) → compared d ms n ≡ n + mismatches d ms
  unfolding compared mismatches count_models
  compared_same [] n = omega arith
  compared_same (m ∷ []) n = count_models_same (d.get_ports m) [] n
  compared_same (m ∷ m' ∷ ms) n = count_models_same (d.get_ports m) (m' ∷ ms) n

  pub clock_same : (c : Comparing M) → clock d c ≡ Compare.clock d c
  unfolding clock Compare.clock compare_ports Compare.compare_ports each vcd_dump eval set_clock
  clock_same c = rw (compared_same c.models c.num_mismatches) refl

  open_traces_same : (file : Text) (ms : List M) → open_traces d file ms ≡ start_traces d file ms
  unfolding open_traces start_traces extend_file
  open_traces_same file [] = refl
  open_traces_same file (m ∷ ms) = ground (arith, open_traces_same file ms)

  pub vcd_start_same :
      (file : Text) (c : Comparing M) → vcd_start d file c ≡ Trace.vcd_start d file c
  unfolding vcd_start Trace.vcd_start
  vcd_start_same file c = ground (arith, open_traces_same file c.models)
