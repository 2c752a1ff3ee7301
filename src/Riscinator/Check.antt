-- ===== src/Riscinator/Check.antt =====
-- `check_results` and the three tests of riscinator/riscinator-main.cpp.
use arc_tests.Prelude.{
  ℕ, ◌-◌, ◌^◌, ◌≡◌, ◌↔◌, refl, Bool, true, false, not, Option, ltb, ◌==◌, if◌then◌else◌, List, [],
  ◌∷◌, arith,
}
use mathlib.Core.Option
use arc_tests.Riscinator.{Core}
use arc_tests.Riscinator.Words.{addr2idx, mem_size, mem_base}
use arc_tests.Riscinator.Simulate.{Bench, simulate}

-- `val_t` and `check_t`.
pub record Val : Type 0 where
  pub idx : ℕ
  pub value : ℕ

pub record Check : Type 0 where
  pub regs : List Val
  pub mem : List Val

abbrev pub val : ℕ → ℕ → Val
val idx value = record { idx = idx; value = value }

-- A loop of `check_results`: whether it returns, given what stands at an index.
unfoldable pub fails : (ℕ → ℕ) → List Val → Bool
fails got [] = false
fails got (v ∷ vs) = if not (got v.idx == v.value) then true else fails got vs

-- An image in a memory that is zero: `memset`, and then `memcpy` of its `size` words.
unfoldable pub image : ℕ → (ℕ → ℕ) → ℕ → ℕ
image size bin i = if ltb i size then bin i else 0

abbrev pub itype_check : Check
itype_check = record {
  regs =
      val 1 63
      ∷ val 2 3
      ∷ val 3 67
      ∷ val 4 3
      ∷ val 5 (2 ^ 32 - 1)
      ∷ val 7 1
      ∷ val 8 0x100004
      ∷ val 9 63
      ∷ val 10 3
      ∷ val 11 67
      ∷ [];
  mem = val 0x100000 3 ∷ val 0x100004 63 ∷ val 0x100008 67 ∷ [];
}

abbrev pub jmps_check : Check
jmps_check = record {
  regs =
      val 1 0
      ∷ val 2 3
      ∷ val 3 67
      ∷ val 4 3
      ∷ val 5 (2 ^ 32 - 1)
      ∷ val 7 1
      ∷ val 8 0x100004
      ∷ val 9 63
      ∷ val 10 3
      ∷ val 11 67
      ∷ val 13 1048688
      ∷ val 17 1
      ∷ val 19 1
      ∷ val 20 1
      ∷ val 21 1
      ∷ val 22 1
      ∷ val 23 1
      ∷ val 25 1
      ∷ val 26 63
      ∷ [];
  mem = val 0x100000 3 ∷ val 0x100004 63 ∷ val 0x100008 67 ∷ [];
}

module _ {M : Type 0} (c : Core M) where
  unfoldable pub check_results : M → (ℕ → ℕ) → ℕ → Check → Bool
  check_results core mem base check =
      if fails (c.reg core) check.regs
      then true
      else fails (λ addr. mem (addr2idx addr base)) check.mem

  -- `itype` and `jmps`: fifty cycles from an image of `size` words on a new core, and the checks. `true` is a failure and `none` a
  -- failed assertion.
  unfoldable pub run_check : Check → ℕ → (ℕ → ℕ) → Bool → M → Option Bool
  run_check check size bin finished core =
      Option.map (λ (b : Bench M). check_results b.core b.mem mem_base check)
        (simulate c 50 mem_size mem_base finished core (image size bin))

  unfoldable pub itype : ℕ → (ℕ → ℕ) → Bool → M → Option Bool
  itype size bin finished core = run_check itype_check size bin finished core

  unfoldable pub jmps : ℕ → (ℕ → ℕ) → Bool → M → Option Bool
  jmps size bin finished core = run_check jmps_check size bin finished core

  -- The cycles are an argument; the program gives ten million.
  unfoldable pub dhrystone : ℕ → ℕ → (ℕ → ℕ) → M → Option Bool
  dhrystone max_cycles size bin core =
      Option.map (λ (b : Bench M). not b.finished)
        (simulate c max_cycles mem_size mem_base false core (image size bin))

-- Each of the values is the one expected.
abbrev pub AllEqual : (ℕ → ℕ) → List Val → Type 0
AllEqual got [] = Unit
AllEqual got (v ∷ vs) = (got v.idx ≡ v.value) × AllEqual got vs

fails_iff : (got : ℕ → ℕ) (vs : List Val) → (fails got vs ≡ false) ↔ AllEqual got vs
unfolding fails
fails_iff got [] = (λ e. tt, λ e. refl)
fails_iff got (v ∷ vs) =
    let rest = fails_iff got vs in
    (λ e. (ground arith, rest.0 (ground arith)), λ all. ground (arith, all.0, rest.1 all.1))

module _ {M : Type 0} (c : Core M) where
  -- `check_results` reports no failure exactly if every register and every word of the memory that the check
  -- lists has the value that it lists.
  pub check_results_iff :
      (core : M) (mem : ℕ → ℕ) (base : ℕ) (check : Check)
      → (check_results c core mem base check ≡ false)
        ↔ (AllEqual (c.reg core) check.regs × AllEqual (λ addr. mem (addr2idx addr base)) check.mem)
  unfolding check_results
  check_results_iff core mem base check =
      let regs = fails_iff (c.reg core) check.regs in
      let words = fails_iff (λ addr. mem (addr2idx addr base)) check.mem in
      (
        λ e. (regs.0 (ground arith), words.0 (ground arith)),
        λ all. ground (arith, regs.1 all.0, words.1 all.1),
      )
