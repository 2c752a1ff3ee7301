-- ===== src/Riscinator/Verilator/Never.antt =====
-- The checks of riscinator/riscinator-verilator-main.cpp read the image of the program and not the memory of the
-- simulation.
use arc_tests.Prelude.{
  zero, suc, ℕ, ◌≡◌, ◌≢◌, refl, arith, Bool, true, false, Option, none, some, Option-cases, inl,
  inr, List, [], ◌∷◌, codes,
}
use arc_tests.Driver.Args.{same_text}
use arc_tests.Riscinator.Words.{mem_size, mem_base}
use arc_tests.Riscinator.Check.{Check}
use arc_tests.Riscinator.Image.{word_at, itype_bin, itype_bin_len, jmps_bin, jmps_bin_len}
use arc_tests.Riscinator.Main.{selects, run_if, repeat_test, exit_code}
use arc_tests.Riscinator.Verilator.{VCore}
use arc_tests.Riscinator.Verilator.Simulate.{addr2idx, simulate}
use arc_tests.Riscinator.Verilator.Check.{
  itype_check, jmps_check, loaded, reports, check_results, itype, jmps, dhrystone, run_tests, main,
}

itype_image_reports :
    reports (λ addr. word_at itype_bin (addr2idx addr mem_base)) itype_check.mem ≡ true
unfolding reports word_at addr2idx
itype_image_reports = refl

jmps_image_reports :
    reports (λ addr. word_at jmps_bin (addr2idx addr mem_base)) jmps_check.mem ≡ true
unfolding reports word_at addr2idx
jmps_image_reports = refl

-- What a test or a row of tests comes to is not a success.
abbrev NoSuccess : Option Bool → Type 0
NoSuccess test = test ≢ some false

run_if-NoSuccess :
    (selected : Bool) (test failed : Option Bool)
    → NoSuccess failed
    → NoSuccess (run_if selected test failed)
unfolding run_if
run_if-NoSuccess selected test none h e = absurd (ground arith)
run_if-NoSuccess selected test (some false) h e = h refl
run_if-NoSuccess selected test (some true) h e = ground arith

run_if-selected : (test failed : Option Bool) → NoSuccess test → NoSuccess (run_if true test failed)
unfolding run_if
run_if-selected test none h e = absurd (ground arith)
run_if-selected none (some failed) h e = absurd (ground arith)
run_if-selected (some false) (some failed) h e = h refl
run_if-selected (some true) (some false) h e = ground arith
run_if-selected (some true) (some true) h e = ground arith

repeat_test-NoSuccess :
    (left : ℕ) (test failed : Option Bool)
    → NoSuccess failed
    → NoSuccess (repeat_test left test failed)
unfolding repeat_test
repeat_test-NoSuccess zero test failed h = h
repeat_test-NoSuccess (suc left) test failed h =
    repeat_test-NoSuccess left test (run_if true test failed) (run_if-NoSuccess true test failed h)

exit_code-NoSuccess : (failed : Option Bool) → NoSuccess failed → exit_code failed ≢ some 0
unfolding exit_code
exit_code-NoSuccess none h e = absurd (ground arith)
exit_code-NoSuccess (some false) h e = h refl
exit_code-NoSuccess (some true) h e = ground arith

module _ {M : Type 0} (v : VCore M) where
  check_results-image :
      (core : M) (mem : ℕ → ℕ) (check : Check)
      → reports (λ addr. mem (addr2idx addr mem_base)) check.mem ≡ true
      → check_results v core mem mem_base check ≡ true
  unfolding check_results
  check_results-image core mem check h = ground (arith, h)

  itype-NoSuccess : (finished : Bool) (new : M) → NoSuccess (itype v finished new)
  unfolding itype
  itype-NoSuccess finished new e =
      let run = simulate v 50 mem_size mem_base finished new (loaded itype_bin_len itype_bin) in
      elim (Option-cases run) [
        | inl failed ↦ absurd (ground (arith, failed, e))
        | inr (b, one) ↦
            let caught =
              check_results-image b.core (word_at itype_bin) itype_check itype_image_reports in
            absurd (ground (arith, one, caught, e))
      ]

  jmps-NoSuccess : (finished : Bool) (new : M) → NoSuccess (jmps v finished new)
  unfolding jmps
  jmps-NoSuccess finished new e =
      let run = simulate v 50 mem_size mem_base finished new (loaded jmps_bin_len jmps_bin) in
      elim (Option-cases run) [
        | inl failed ↦ absurd (ground (arith, failed, e))
        | inr (b, one) ↦
            let caught =
              check_results-image b.core (word_at jmps_bin) jmps_check jmps_image_reports in
            absurd (ground (arith, one, caught, e))
      ]

  -- On Verilator, the program never returns 0 when it runs the test of `itype` or that of `jmps`, alone or with the
  -- others, whatever the core does: their checks of the memory read the image that was loaded, which has other values.
  pub main-ne-zero :
      (new : M) (bin : List ℕ) (len : ℕ)
      → (main v new bin len [] ≢ some 0)
        × (main v new bin len (codes "itype" ∷ []) ≢ some 0)
        × (main v new bin len (codes "jmps" ∷ []) ≢ some 0)
  unfolding main run_tests selects same_text
  main-ne-zero new bin len =
      let first = run_if-selected (itype v false new) (some false) (itype-NoSuccess false new) in
      let both = run_if-NoSuccess true (jmps v false new) _ first in
      (
        exit_code-NoSuccess _ (repeat_test-NoSuccess 10 (dhrystone v 10000000 bin len new) _ both),
        exit_code-NoSuccess _ (run_if-NoSuccess false (jmps v false new) _ first),
        exit_code-NoSuccess _ (
            run_if-selected (jmps v false new) (run_if false (itype v false new) (some false))
              (jmps-NoSuccess false new)),
      )
