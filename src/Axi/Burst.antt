-- ===== src/Axi/Burst.antt =====
-- What a burst of AXI transfers is, independent of how the port counts it down.
use arc_tests.Prelude.{
  ℕ, zero, suc, ◌+◌, ◌-◌, ◌*◌, ◌/◌, ◌^◌, ◌≤◌, ◌<◌, ◌≡◌, ◌∙◌, sym, Bool, List, [], ◌∷◌, arith,
  if◌then◌else◌, ◌==◌, ap, refl, u64, leb, Bool-cases, inl, inr,
}
use mathlib.Core.Path.{subst}
use Prim.Native.Nat.{◌∣◌}
use native.Mathlib.Nat.{
  mod-add-mod, mod-eq-zero_of_dvd, add-mul, mul-add-mod_self_right, mul_right_comm, div-add-mod',
  dvd-zero, dvd_refl, dvd-mul_left, dvd_trans, dvd-mul_right_of_dvd, dvd-mod_iff, div-mul_cancel,
  pow-suc, add-zero,
}
use arc_tests.Axi.Port.{next_addr}

pub record Beat : Type 0 where
  pub id : ℕ
  pub addr : ℕ
  pub last : Bool

-- The address of beat `k` of an incrementing burst (AXI4, "INCR"): the start address first, and then the multiples of
-- the beat's size above it, in the 64 bits of an address.
unfoldable pub incr_addr : ℕ → ℕ → ℕ → ℕ
incr_addr addr size k = if k == 0 then addr else u64 ((addr / 2 ^ size + k) * 2 ^ size)

-- The beats of a burst from beat `k` on, where `n` are left; the last one is marked.
unfoldable pub beats_from : ℕ → ℕ → ℕ → ℕ → ℕ → List Beat
beats_from id addr size k zero = []
beats_from id addr size k (suc n) =
    record { id = id; addr = incr_addr addr size k; last = n == 0 }
    ∷ beats_from id addr size (k + 1) n

-- The beats of a burst of `n`, in order.
abbrev pub burst : ℕ → ℕ → ℕ → ℕ → List Beat
burst id addr size n = beats_from id addr size 0 n

pow-dvd-pow : (s d : ℕ) → 2 ^ s ∣ 2 ^ (s + d)
pow-dvd-pow s zero = subst (λ e. 2 ^ s ∣ 2 ^ e) (sym (add-zero s)) (dvd_refl (2 ^ s))
pow-dvd-pow s (suc d) =
    let step : suc (s + d) ≡ s + suc d = omega arith in
    subst (λ e. 2 ^ s ∣ 2 ^ e) step
      (subst (λ x. 2 ^ s ∣ x) (sym (pow-suc 2 (s + d)))
        (dvd-mul_right_of_dvd (2 ^ s) (pow-dvd-pow s d) 2))

pow-dvd-pow_le : (s t : ℕ) → s ≤ t → 2 ^ s ∣ 2 ^ t
pow-dvd-pow_le s t le =
    let same : s + (t - s) ≡ t = omega (arith, le) in
    subst (λ e. 2 ^ s ∣ 2 ^ e) same (pow-dvd-pow s (t - s))

-- A multiple of a beat's size stays one when it is cut to 64 bits.
u64-multiple : (y size : ℕ) → u64 (y * 2 ^ size) / 2 ^ size * 2 ^ size ≡ u64 (y * 2 ^ size)
u64-multiple y size =
    let m = 2 ^ size in
    elim (Bool-cases (leb size 64)) [
      | inl small ↦
          let fits : m ∣ 2 ^ 64 = pow-dvd-pow_le size 64 (ground (arith, small)) in
          div-mul_cancel m ((dvd-mod_iff m fits).1 (dvd-mul_left m y))
      | inr large ↦
          let fits : 2 ^ 64 ∣ m = pow-dvd-pow_le 64 size (ground (arith, large)) in
          let gone : u64 (y * m) ≡ 0 =
            mod-eq-zero_of_dvd (2 ^ 64) (dvd_trans (2 ^ 64) fits (dvd-mul_left m y)) in
          div-mul_cancel m (subst (λ r. m ∣ r) (sym gone) (dvd-zero m))
    ]

-- `k` further steps from a multiple of a beat's size.
u64-steps :
    (y k size : ℕ) → u64 ((u64 (y * 2 ^ size) / 2 ^ size + k) * 2 ^ size) ≡ u64 ((y + k) * 2 ^ size)
u64-steps y k size =
    let m = 2 ^ size in
    rw
      (
        add-mul (u64 (y * m) / m) k m,
        u64-multiple y size,
        mod-add-mod (y * m) (2 ^ 64) (k * m),
        add-mul y k m,
      )
      refl

u64-mul : (a m : ℕ) → u64 (u64 a * m) ≡ u64 (a * m)
u64-mul a m =
    let parts : a * m ≡ a / 2 ^ 64 * m * 2 ^ 64 + u64 a * m =
      ap (λ x. x * m) (sym (div-add-mod' a (2 ^ 64)))
      ∙ add-mul (a / 2 ^ 64 * 2 ^ 64) (u64 a) m
      ∙ ap (λ x. x + u64 a * m) (mul_right_comm (a / 2 ^ 64) (2 ^ 64) m) in
    rw (parts, mul-add-mod_self_right (a / 2 ^ 64 * m) (2 ^ 64) (u64 a * m)) refl

next_addr-incr : (addr size : ℕ) → next_addr addr size ≡ u64 ((addr / 2 ^ size + 1) * 2 ^ size)
unfolding next_addr
next_addr-incr addr size = u64-mul (addr / 2 ^ size + 1) (2 ^ size)

incr_addr-next :
    (addr size k : ℕ) → incr_addr (next_addr addr size) size k ≡ incr_addr addr size (k + 1)
unfolding incr_addr
incr_addr-next addr size k =
    let q = addr / 2 ^ size in
    let steps = u64-steps (q + 1) k size in
    let count : q + 1 + k ≡ q + (k + 1) = omega arith in
    ground (arith, next_addr-incr addr size, steps, count)

beats_from-next :
    (id addr size k n : ℕ)
    → beats_from id addr size (k + 1) n ≡ beats_from id (next_addr addr size) size k n
unfolding beats_from
beats_from-next id addr size k zero = refl
beats_from-next id addr size k (suc n) =
    ground (arith, incr_addr-next addr size k, beats_from-next id addr size (k + 1) n)

-- The port's register takes the address of each beat from that of the beat before.
pub burst-pos :
    (id addr size n : ℕ)
    → 0 < n
    → burst id addr size n
      ≡ record { id = id; addr = addr; last = n == 1 } ∷ burst id (next_addr addr size) size (n - 1)
unfolding beats_from incr_addr
burst-pos id addr size zero h = absurd (omega arith)
burst-pos id addr size (suc n) h = ground (arith, beats_from-next id addr size 0 n)
