-- ===== src/Guest/Util/Tests.antt =====
-- Runs of `lfsr`, `insn_len` and `verify`.
use arc_tests.Prelude.{ℕ, ◌^◌, ◌<◌, ◌≡◌, refl, arith, ◌==◌, if◌then◌else◌, some}
use arc_tests.Guest.Memory.{Mem}
use arc_tests.Guest.Util.{verify, verify_pairs, verify_double, lfsr, insn_len}
use arc_tests.Guest.Util.Verify.{first_difference, verify_lem}
use arc_tests.Guest.Util.Lfsr.{lfsr_permutes}

lfsr_one : lfsr 1 ≡ 2 ^ 62
unfolding lfsr
lfsr_one = refl

lfsr_permutes_example :
    let one : ℕ = 1 in let two : ℕ = 2 in (lfsr one < 2 ^ 63) × (lfsr one ≡ lfsr two → one ≡ two)
lfsr_permutes_example = lfsr_permutes 1 2 (omega arith) (omega arith)

-- The third of three elements differs.
verify_lem_example :
    let zeros : ℕ → ℕ = λ i. 0 in
    let at_two : ℕ → ℕ = λ i. if i == 2 then 1 else 0 in
    (verify 3 zeros at_two ≡ some (first_difference (λ i. zeros i == at_two i) 3 0))
    × (verify_double ◌==◌ 3 at_two zeros ≡ some (first_difference (λ i. at_two i == zeros i) 3 0))
verify_lem_example =
    let zeros : ℕ → ℕ = λ i. 0 in
    let at_two : ℕ → ℕ = λ i. if i == 2 then 1 else 0 in verify_lem ◌==◌ 3 zeros at_two at_two zeros

third_differs : verify 3 (λ i. 0) (λ i. if i == 2 then 1 else 0) ≡ some 3
unfolding verify verify_pairs
third_differs = refl

-- `c.addi a0, 1` is 0x0505, an instruction of two bytes.
abbrev addi : Mem
addi p = 5

insn_len-addi : insn_len addi 0 ≡ 4
unfolding insn_len
insn_len-addi = refl
