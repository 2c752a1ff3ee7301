-- ===== src/Riscinator/Main.antt =====
-- `main` of riscinator/riscinator-main.cpp: which tests run, and the exit.
use arc_tests.Prelude.{
  ℕ, zero, suc, ◌/◌, Bool, true, false, ◌||◌, Option, none, some, if◌then◌else◌, List, [], ◌∷◌,
  codes,
}
use arc_tests.Driver.Args.{Text, same_text}
use arc_tests.Riscinator.{Core}
use arc_tests.Riscinator.Image.{word_at, itype_bin, itype_bin_len, jmps_bin, jmps_bin_len}
use arc_tests.Riscinator.Check.{itype, jmps, dhrystone}

-- `argc == 1 || !std::strcmp(argv[1], name)`, on `argv` without its first element.
unfoldable pub selects : List Text → Text → Bool
selects [] name = true
selects (arg ∷ args) name = same_text arg name

-- `failed |= test()`, of a test that is selected; `none` is a failed assertion.
unfoldable pub run_if : Bool → Option Bool → Option Bool → Option Bool
run_if selected test none = none
run_if selected test (some failed) =
    if selected then (elim test [ none ↦ none | some f ↦ some (failed || f) ]) else some failed

-- The loop over one test, with the rounds that are left.
unfoldable pub repeat_test : ℕ → Option Bool → Option Bool → Option Bool
repeat_test zero test failed = failed
repeat_test (suc left) test failed = repeat_test left test (run_if true test failed)

-- The number that is returned.
unfoldable pub exit_code : Option Bool → Option ℕ
exit_code none = none
exit_code (some failed) = some (if failed then 1 else 0)

-- The tests in their order, given what each comes to.
unfoldable pub run_tests : Option Bool → Option Bool → Option Bool → List Text → Option ℕ
run_tests itype_test jmps_test dhrystone_test args =
    let after_itype = run_if (selects args (codes "itype")) itype_test (some false) in
    let after_jmps = run_if (selects args (codes "jmps")) jmps_test after_itype in
    exit_code (
      if selects args (codes "dhrystone")
      then repeat_test 10 dhrystone_test after_jmps
      else after_jmps)

-- `argc > 2` prints how the program is called.
unfoldable pub with_args : Option Bool → Option Bool → Option Bool → List Text → Option ℕ
with_args itype_test jmps_test dhrystone_test [] = run_tests itype_test jmps_test dhrystone_test []
with_args itype_test jmps_test dhrystone_test (arg ∷ []) =
    run_tests itype_test jmps_test dhrystone_test (arg ∷ [])
with_args itype_test jmps_test dhrystone_test (arg ∷ arg' ∷ args) = some 0

-- Each test makes a core of its own. `finished` is set by the first two tests at most, and cleared before it is
-- read. The image of Dhrystone is an argument.
unfoldable pub main : {M : Type 0} → Core M → M → List ℕ → ℕ → List Text → Option ℕ
main c new dhrystone_bin dhrystone_bin_len args =
    with_args (itype c (itype_bin_len / 4) (word_at itype_bin) false new)
      (jmps c (jmps_bin_len / 4) (word_at jmps_bin) false new)
      (dhrystone c 10000000 (dhrystone_bin_len / 4) (word_at dhrystone_bin) new) args
