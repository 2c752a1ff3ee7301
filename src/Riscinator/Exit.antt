-- ===== src/Riscinator/Exit.antt =====
-- What the exit of riscinator/riscinator-main.cpp says of the three tests.
use arc_tests.Prelude.{
  ℕ, zero, suc, ◌/◌, ◌≡◌, ◌↔◌, refl, arith, Bool, true, false, Option, none, some, Option-cases,
  inl, inr, List, [],
}
use arc_tests.Riscinator.{Core}
use arc_tests.Riscinator.Words.{addr2idx, mem_size, mem_base}
use arc_tests.Riscinator.Simulate.{Bench, simulate}
use arc_tests.Riscinator.Image.{word_at, itype_bin, itype_bin_len, jmps_bin, jmps_bin_len}
use arc_tests.Riscinator.Check.{
  Check, AllEqual, itype_check, jmps_check, image, check_results_iff, run_check, itype, jmps,
  dhrystone,
}
use arc_tests.Riscinator.Main.{selects, run_if, repeat_test, exit_code, run_tests, with_args, main}

run_if_iff :
    (test failed : Option Bool)
    → (run_if true test failed ≡ some false) ↔ ((failed ≡ some false) × (test ≡ some false))
unfolding run_if
run_if_iff test none = (λ e. absurd (ground arith), λ h. absurd (ground (arith, h.0)))
run_if_iff none (some failed) = (λ e. absurd (ground arith), λ h. absurd (ground (arith, h.1)))
run_if_iff (some f) (some failed) = (λ e. ground arith, λ h. ground (arith, h.0, h.1))

repeat_test_iff :
    (left : ℕ) (test failed : Option Bool)
    → (repeat_test (suc left) test failed ≡ some false)
      ↔ ((failed ≡ some false) × (test ≡ some false))
unfolding repeat_test
repeat_test_iff zero test failed = run_if_iff test failed
repeat_test_iff (suc left) test failed =
    let rest = repeat_test_iff left test (run_if true test failed) in
    let first = run_if_iff test failed in (λ e. first.0 (rest.0 e).0, λ h. rest.1 (first.1 h, h.1))

exit_code_iff : (failed : Option Bool) → (exit_code failed ≡ some 0) ↔ (failed ≡ some false)
unfolding exit_code
exit_code_iff none = (λ e. absurd (ground arith), λ e. absurd (ground arith))
exit_code_iff (some failed) = (λ e. ground arith, λ e. ground arith)

-- All tests in their order.
tests_iff :
    (itype_test jmps_test dhrystone_test : Option Bool)
    → (run_tests itype_test jmps_test dhrystone_test [] ≡ some 0)
      ↔ ((itype_test ≡ some false) × (jmps_test ≡ some false) × (dhrystone_test ≡ some false))
unfolding run_tests selects
tests_iff itype_test jmps_test dhrystone_test =
    let after_itype = run_if true itype_test (some false) in
    let after_jmps = run_if true jmps_test after_itype in
    let code = exit_code_iff (repeat_test 10 dhrystone_test after_jmps) in
    let ten = repeat_test_iff 9 dhrystone_test after_jmps in
    let two = run_if_iff jmps_test after_itype in
    let one = run_if_iff itype_test (some false) in
    (
      λ e. let t = ten.0 (code.0 e) in let u = two.0 t.0 in ((one.0 u.0).1, u.1, t.1),
      λ (p, q, r). code.1 (ten.1 (two.1 (one.1 (refl, p), q), r)),
    )

module _ {M : Type 0} (c : Core M) where
  -- Fifty cycles from the image on a new core run without a failed assertion, and what a check lists is what the
  -- registers and the memory hold then.
  abbrev pub Passes : Check → ℕ → (ℕ → ℕ) → M → Type 0
  Passes check size bin new =
      (b : Bench M) × (simulate c 50 mem_size mem_base false new (image size bin) ≡ some b)
      × AllEqual (c.reg b.core) check.regs
      × AllEqual (λ addr. b.mem (addr2idx addr mem_base)) check.mem

  -- Ten million cycles from the image run without a failed assertion, and reach the write that ends the benchmark.
  abbrev pub Finishes : ℕ → (ℕ → ℕ) → M → Type 0
  Finishes size bin new =
      (b : Bench M) × (simulate c 10000000 mem_size mem_base false new (image size bin) ≡ some b)
      × (b.finished ≡ true)

  run_check_iff :
      (check : Check) (size : ℕ) (bin : ℕ → ℕ) (new : M)
      → (run_check c check size bin false new ≡ some false) ↔ Passes check size bin new
  unfolding run_check
  run_check_iff check size bin new = (
    λ e. elim (Option-cases (simulate c 50 mem_size mem_base false new (image size bin))) [
      | inl stop ↦ absurd (ground (arith, stop, e))
      | inr (b, one) ↦
          let all = (check_results_iff c b.core b.mem mem_base check).0 (ground (arith, one, e)) in
          (b, one, all.0, all.1)
    ],
    λ (b, one, regs, mem).
        let good = (check_results_iff c b.core b.mem mem_base check).1 (regs, mem) in
        ground (arith, one, good),
  )

  dhrystone_iff :
      (size : ℕ) (bin : ℕ → ℕ) (new : M)
      → (dhrystone c 10000000 size bin new ≡ some false) ↔ Finishes size bin new
  unfolding dhrystone
  dhrystone_iff size bin new = (
    λ e. elim (Option-cases (simulate c 10000000 mem_size mem_base false new (image size bin))) [
      | inl stop ↦ absurd (ground (arith, stop, e))
      | inr (b, one) ↦ (b, one, ground (arith, one, e))
    ],
    λ (b, one, done). ground (arith, one, done),
  )

  -- Without an argument, the program returns 0 exactly if the programs of `itype` and `jmps` both leave the registers and
  -- the words of memory that their checks list, and Dhrystone ends within its cycles, each on a new core and without a failed
  -- assertion.
  pub main-eq-zero_iff :
      (new : M) (bin : List ℕ) (len : ℕ)
      → (main c new bin len [] ≡ some 0) ↔ (
          Passes itype_check (itype_bin_len / 4) (word_at itype_bin) new
          × Passes jmps_check (jmps_bin_len / 4) (word_at jmps_bin) new
          × Finishes (len / 4) (word_at bin) new)
  unfolding main with_args run_tests selects itype jmps
  main-eq-zero_iff new bin len =
      let first = run_check_iff itype_check (itype_bin_len / 4) (word_at itype_bin) new in
      let second = run_check_iff jmps_check (jmps_bin_len / 4) (word_at jmps_bin) new in
      let third = dhrystone_iff (len / 4) (word_at bin) new in
      let itype_test = itype c (itype_bin_len / 4) (word_at itype_bin) false new in
      let jmps_test = jmps c (jmps_bin_len / 4) (word_at jmps_bin) false new in
      let dhrystone_test = dhrystone c 10000000 (len / 4) (word_at bin) new in
      let all = tests_iff itype_test jmps_test dhrystone_test in
      (
        λ e. let t = all.0 e in (first.0 t.0, second.0 t.1, third.0 t.2),
        λ (p, q, r). all.1 (first.1 p, second.1 q, third.1 r),
      )
