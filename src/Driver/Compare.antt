-- ===== src/Driver/Compare.antt =====
-- `ComparingRocketModel` of rocket/rocket-main.cpp: several models driven as one, and the count of the ports on
-- which they differ. What it prints and the times are left out.
use arc_tests.Prelude.{ℕ, zero, suc, ◌+◌, true, false, ltb, ◌==◌, if◌then◌else◌, List, [], ◌∷◌, map}
use arc_tests.Axi.{AxiOutputs}
use arc_tests.Axi.Port.{no_outputs}
use arc_tests.Driver.{Design}

pub record Comparing (M : Type 0) : Type 0 where
  pub models : List M
  pub cycle : ℕ
  pub num_mismatches : ℕ

-- The inner loop of `compare_ports`. The two arrays have one length.
unfoldable pub differing : List ℕ → List ℕ → ℕ
differing [] bs = 0
differing (a ∷ as') [] = 0
differing (a ∷ as') (b ∷ bs) = (if a == b then 0 else 1) + differing as' bs

module _ {M : Type 0} (d : Design M) where
  -- The outer loop, over the models behind the first.
  unfoldable pub differing_models : List ℕ → List M → ℕ
  differing_models ports [] = 0
  differing_models ports (m ∷ ms) = differing ports (d.get_ports m) + differing_models ports ms

  -- The mismatches of all models against the first.
  unfoldable pub mismatches : List M → ℕ
  mismatches [] = 0
  mismatches (m ∷ ms) = differing_models (d.get_ports m) ms

  unfoldable pub compare_ports : Comparing M → Comparing M
  compare_ports c = record c { num_mismatches = c.num_mismatches + mismatches c.models }

  unfoldable pub each : (M → M) → Comparing M → Comparing M
  each f c = record c { models = map f c.models }

  unfoldable pub clock : Comparing M → Comparing M
  clock c =
      let compared = compare_ports c in
      let dumped = each (d.vcd_dump compared.cycle) compared in
      let high = each d.eval (each (d.set_clock true) dumped) in
      let low = each d.eval (each (d.set_clock false) high) in record low { cycle = low.cycle + 1 }

  unfoldable pub first_mem : List M → AxiOutputs
  first_mem [] = no_outputs
  first_mem (m ∷ ms) = d.get_mem m

  unfoldable pub first_mmio : List M → AxiOutputs
  first_mmio [] = no_outputs
  first_mmio (m ∷ ms) = d.get_mmio m

  -- "Model initialization and reset": `left` rounds from round `i` on, of which those below 100 hold the reset.
  unfoldable pub reset_rounds : ℕ → ℕ → Comparing M → Comparing M
  reset_rounds zero i c = c
  reset_rounds (suc left) i c = reset_rounds left (i + 1) (clock (each (d.set_reset (ltb i 100)) c))
