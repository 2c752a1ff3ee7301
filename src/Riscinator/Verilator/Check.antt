-- ===== src/Riscinator/Verilator/Check.antt =====
-- `check_results`, the three tests and `main` of riscinator/riscinator-verilator-main.cpp.
use mathlib.Core.Option
use arc_tests.Prelude.{
  ℕ, ◌/◌, ◌-◌, ◌^◌, Bool, true, false, not, Option, some, ltb, ◌==◌, if◌then◌else◌, List, [], ◌∷◌,
  codes,
}
use arc_tests.Driver.Args.{Text}
use arc_tests.Riscinator.Words.{mem_size, mem_base}
use arc_tests.Riscinator.Simulate.{Bench}
use arc_tests.Riscinator.Image.{word_at, itype_bin, itype_bin_len, jmps_bin, jmps_bin_len}
use arc_tests.Riscinator.Check.{Val, Check, val}
use arc_tests.Riscinator.Main.{selects, run_if, repeat_test, exit_code}
use arc_tests.Riscinator.Verilator.{VCore}
use arc_tests.Riscinator.Verilator.Simulate.{addr2idx, simulate}

abbrev pub itype_check : Check
itype_check = record {
  regs =
      val 1 63
      ∷ val 2 3
      ∷ val 3 67
      ∷ val 4 3
      ∷ val 5 (2 ^ 32 - 1)
      ∷ val 7 1
      ∷ val 8 0x100004
      ∷ val 9 63
      ∷ val 10 3
      ∷ val 11 67
      ∷ [];
  mem = val 0x100000 3 ∷ val 0x100004 63 ∷ val 0x100008 67 ∷ [];
}

abbrev pub jmps_check : Check
jmps_check = record {
  regs =
      val 1 0
      ∷ val 2 3
      ∷ val 3 67
      ∷ val 4 3
      ∷ val 5 (2 ^ 32 - 1)
      ∷ val 7 1
      ∷ val 8 0x100004
      ∷ val 9 63
      ∷ val 10 3
      ∷ val 11 67
      ∷ val 13 1048688
      ∷ val 17 1
      ∷ val 19 1
      ∷ val 20 1
      ∷ val 21 1
      ∷ val 22 1
      ∷ val 23 1
      ∷ val 25 1
      ∷ val 26 63
      ∷ [];
  mem = val 0x100000 3 ∷ val 0x100004 63 ∷ val 0x100008 67 ∷ [];
}

-- `memset` and `memcpy` of a memory.
unfoldable pub loaded : ℕ → List ℕ → ℕ → ℕ
loaded len bin i = if ltb i (len / 4) then word_at bin i else 0

-- A loop of `check_results`: whether it reports.
unfoldable pub reports : (ℕ → ℕ) → List Val → Bool
reports got [] = false
reports got (v ∷ vs) = if got v.idx == v.value then reports got vs else true

module _ {M : Type 0} (v : VCore M) where
  unfoldable pub check_results : M → (ℕ → ℕ) → ℕ → Check → Bool
  check_results core mem base check =
      if reports (v.reg core) check.regs
      then true
      else reports (λ addr. mem (addr2idx addr base)) check.mem

  -- The memory that `check_results` gets is the image, as it was before the simulation.
  unfoldable pub itype : Bool → M → Option Bool
  itype finished new =
      Option.map (λ (b : Bench M). check_results b.core (word_at itype_bin) mem_base itype_check)
        (simulate v 50 mem_size mem_base finished new (loaded itype_bin_len itype_bin))

  unfoldable pub jmps : Bool → M → Option Bool
  jmps finished new =
      Option.map (λ (b : Bench M). check_results b.core (word_at jmps_bin) mem_base jmps_check)
        (simulate v 50 mem_size mem_base finished new (loaded jmps_bin_len jmps_bin))

  -- The image is an argument; ten million cycles are the program's.
  unfoldable pub dhrystone : ℕ → List ℕ → ℕ → M → Option Bool
  dhrystone max_cycles bin len new =
      Option.map (λ (b : Bench M). not b.finished)
        (simulate v max_cycles mem_size mem_base false new (loaded len bin))

  -- On a command line that is not too long. `finished` is cleared before it is read.
  unfoldable pub run_tests : M → List ℕ → ℕ → List Text → Option ℕ
  run_tests new bin len args =
      let after_itype = run_if (selects args (codes "itype")) (itype false new) (some false) in
      let after_jmps = run_if (selects args (codes "jmps")) (jmps false new) after_itype in
      exit_code (
        if selects args (codes "dhrystone")
        then repeat_test 10 (dhrystone 10000000 bin len new) after_jmps
        else after_jmps)

  unfoldable pub main : M → List ℕ → ℕ → List Text → Option ℕ
  main new bin len [] = run_tests new bin len []
  main new bin len (arg ∷ []) = run_tests new bin len (arg ∷ [])
  main new bin len (arg ∷ arg' ∷ args) = some 0
