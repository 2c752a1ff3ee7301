-- ===== src/Axi/Widths.antt =====
-- The widths of the registers and data of a port (`AxiPort` of rocket/rocket-main.cpp), over callbacks that keep the
-- widths of the state behind them.
use arc_tests.Prelude.{
  ℕ, ◌^◌, ◌<◌, ◌≡◌, true, ◌&&◌, some, arith, bit_and, ltb, if◌then◌else◌, Bool-cases, inl, inr,
}
use mathlib.Core.Path.{subst}
use arc_tests.Axi.{AxiOutputs}
use arc_tests.Axi.Cycle.{see, IsAxi, IsValid, see-IsValid}
use arc_tests.Axi.Port.{AxiPort, Callbacks, lane_mask, read_data, store, update_a, update_b}
use arc_tests.Axi.Reads.{Shown, update_a-Shown}
use arc_tests.Axi.Stores.{beat_store, update_a-store}
use arc_tests.Axi.Writes.{Written, update_a-Written}

-- Callbacks that keep a property of their state and read words of 64 bits from it.
pub record KeepsWidths {S : Type 0} (fns : Callbacks S) (P : S → Type 0) : Type 0 where
  pub reads : (s : S) (addr : ℕ) → P s → read_data fns s addr < 2 ^ 64
  pub stores :
      (s : S) (addr word mask : ℕ) {s' : S}
      → P s
      → word < 2 ^ 64
      → store fns s addr word mask ≡ some s'
      → P s'

-- A port between two rounds.
pub record IsTypedPort (p : AxiPort) : Type 0 where
  pub registers : IsValid p
  pub data_word : p.inputs.r_data < 2 ^ 64

-- A port between `update_a` and `update_b`.
pub record IsHalfway (p : AxiPort) : Type 0 where
  pub port : IsTypedPort p
  pub reading : p.inputs.r_valid ≡ true → 0 < p.read_beats_left
  pub acking : p.inputs.b_valid ≡ true → p.write_beats_left ≡ 0

Shown-IsHalfway :
    (p q : AxiPort) (word : ℕ)
    → IsValid p
    → IsAxi p.outputs
    → word < 2 ^ 64
    → Shown p word q
    → Written p q
    → IsHalfway q
Shown-IsHalfway p q word v axi small shown written = record {
  port = record {
    registers = record { reads = ground arith; writes = ground arith; acked = ground arith };
    data_word = ground arith;
  };
  reading = λ h. ground arith;
  acking = λ h. ground arith;
}

pub update_b-IsTypedPort :
    (p : AxiPort) (b : AxiOutputs) → IsHalfway p → IsTypedPort (update_b (see b p))
unfolding update_b
update_b-IsTypedPort p b h = record {
  registers = record { reads = ground arith; writes = ground arith; acked = ground arith };
  data_word = ground arith;
}

module _ {S : Type 0} (fns : Callbacks S) (P : S → Type 0) (keeps : KeepsWidths fns P) where
  stored-keeps :
      (s : S) (p : AxiPort) (a : AxiOutputs) {s' : S}
      → P s
      → a.w_data < 2 ^ 64
      → (if a.w_valid && ltb 0 p.write_beats_left
          then beat_store fns (see a p) (some s)
          else some s)
        ≡ some s'
      → P s'
  stored-keeps s p a {s' = s'} ok small h =
      elim (Bool-cases (a.w_valid && ltb 0 p.write_beats_left)) [
        | inl one ↦
            keeps.stores s p.write_addr a.w_data
              (bit_and a.w_strb (lane_mask p.write_addr p.write_size)) ok small
              (ground (arith, one, h))
        | inr other ↦ let same : s ≡ s' = ground (arith, other, h) in subst P same ok
      ]

  -- `update_a` keeps the widths, if the design sends data of 64 bits.
  pub update_a-IsHalfway :
      (s : S) (p : AxiPort) (a : AxiOutputs) {s' : S} {q : AxiPort}
      → P s
      → IsTypedPort p
      → IsAxi a
      → a.w_data < 2 ^ 64
      → update_a fns s (see a p) ≡ some (s', q)
      → P s' × IsHalfway q
  update_a-IsHalfway s p a {s' = s'} {q = q} ok t axi small h =
      let v = see-IsValid a t.registers in
      (
        stored-keeps s p a ok small (update_a-store fns s (see a p) h).1,
        Shown-IsHalfway (see a p) q (read_data fns s p.read_addr) v axi
            (keeps.reads s p.read_addr ok) (update_a-Shown fns s (see a p) h)
            (update_a-Written fns s (see a p) v h),
      )
