-- ===== src/Driver/Widths.antt =====
-- The states that the simulation of rocket/rocket-main.cpp goes through, from the loader on, and the types
-- of what they hold: the model's numbers stay within the widths of the C++.
mod Tests
use arc_tests.Prelude.{
  ◌^◌, ◌<◌, ◌≡◌, refl, false, some, Option-cases, inl, inr, arith, List, [], ◌∷◌,
}
use mathlib.Core.Path.{subst}
use arc_tests.Axi.{AxiOutputs}
use arc_tests.Axi.Cycle.{see, IsAxi}
use arc_tests.Axi.Port.{idle, update_a}
use arc_tests.Axi.Widths.{IsTypedPort, IsHalfway, update_a-IsHalfway, update_b-IsTypedPort}
use arc_tests.Host.Device.{mem_port, mmio_port}
use arc_tests.Host.Loader.{Segment, AllFit, load, byte_at-load}
use arc_tests.Host.Memory.{Memory, IsWords}
use arc_tests.Host.Widths.{IsTypedHost, mem_port-KeepsWidths, mmio_port-KeepsWidths}
use arc_tests.Driver.{Design}
use arc_tests.Driver.Compare.{each, clock, first_mem, first_mmio}
use arc_tests.Driver.Loop.{Sim, go_on, feed, drain, judge, round, start}
use arc_tests.Driver.Main.{empty_memory}

-- The signals of a port have their widths: bursts of at most 256 beats, and data of 64 bits.
pub record HasWidths (out : AxiOutputs) : Type 0 where
  pub lengths : IsAxi out
  pub data_word : out.w_data < 2 ^ 64

pub record IsTyped {M : Type 0} (s : Sim M) : Type 0 where
  pub host : IsTypedHost s.host
  pub mem : IsTypedPort s.mem
  pub mmio : IsTypedPort s.mmio
  pub running : s.host.finished ≡ false
  pub patience : s.num_bad_cycles < 3

record IsBetween {M : Type 0} (s : Sim M) : Type 0 where
  host : IsTypedHost s.host
  mem : IsHalfway s.mem
  mmio : IsHalfway s.mmio
  patience : s.num_bad_cycles < 3

idle-IsTypedPort : IsTypedPort idle
idle-IsTypedPort = record {
  registers = record { reads = omega arith; writes = omega arith; acked = inr refl };
  data_word = omega arith;
}

module _ {M : Type 0} (d : Design M) where
  -- The rounds of the loop, one after the other, while it goes on.
  pub data Reaches : Sim M → Sim M → Type 0 where
    here : {s : Sim M} → Reaches s s
    next : {s t u : Sim M} → round d s ≡ go_on t → Reaches t u → Reaches s u

module _ {M : Type 0} (d : Design M) (mem_widths : (m : M) → HasWidths (d.get_mem m))
    (mmio_widths : (m : M) → HasWidths (d.get_mmio m)) where
  first_mem-HasWidths : (ms : List M) → HasWidths (first_mem d ms)
  unfolding first_mem
  first_mem-HasWidths [] = record {
    lengths = record { ar_len = omega arith; aw_len = omega arith };
    data_word = omega arith;
  }
  first_mem-HasWidths (m ∷ ms) = mem_widths m

  first_mmio-HasWidths : (ms : List M) → HasWidths (first_mmio d ms)
  unfolding first_mmio
  first_mmio-HasWidths [] = record {
    lengths = record { ar_len = omega arith; aw_len = omega arith };
    data_word = omega arith;
  }
  first_mmio-HasWidths (m ∷ ms) = mmio_widths m

  feed-IsBetween : (s t : Sim M) → IsTyped s → feed d s ≡ some t → IsBetween t
  unfolding feed
  feed-IsBetween s t ok e =
      let mem_out = first_mem d s.model.models in
      let w = first_mem-HasWidths s.model.models in
      elim (Option-cases (update_a mem_port s.host (see mem_out s.mem))) [
        | inl stop ↦ absurd (ground (arith, stop, e))
        | inr ((host₁, mem₁), one) ↦
            let model₁ = each d (d.set_mem mem₁.inputs) s.model in
            let mmio_out = first_mmio d model₁.models in
            let w₁ = first_mmio-HasWidths model₁.models in
            let (ok₁, half) =
              update_a-IsHalfway mem_port IsTypedHost mem_port-KeepsWidths s.host s.mem mem_out
                ok.host ok.mem w.lengths w.data_word one in
            elim (Option-cases (update_a mmio_port host₁ (see mmio_out s.mmio))) [
              | inl stop ↦ absurd (ground (arith, one, stop, e))
              | inr ((host₂, mmio₁), two) ↦
                  let (ok₂, half₁) =
                    update_a-IsHalfway mmio_port IsTypedHost mmio_port-KeepsWidths host₁ s.mmio
                      mmio_out ok₁ ok.mmio w₁.lengths w₁.data_word two in
                  let fed : Sim M = record s {
                    model = each d d.eval (each d (d.set_mmio mmio₁.inputs) model₁);
                    mem = mem₁;
                    mmio = mmio₁;
                    host = host₂;
                  } in
                  let same : fed ≡ t = ground (arith, one, two, e) in
                  subst IsBetween same
                    (record { host = ok₂; mem = half; mmio = half₁; patience = ok.patience })
            ]
      ]

  judge-IsTyped :
      (s t : Sim M)
      → IsTypedHost s.host
      → IsTypedPort s.mem
      → IsTypedPort s.mmio
      → s.num_bad_cycles < 3
      → judge d s ≡ go_on t
      → IsTyped t
  unfolding judge
  judge-IsTyped s t h p q few e =
      let same_host : s.host ≡ t.host = ground (arith, e) in
      let same_mem : s.mem ≡ t.mem = ground (arith, e) in
      let same_mmio : s.mmio ≡ t.mmio = ground (arith, e) in
      record {
        host = subst IsTypedHost same_host h;
        mem = subst IsTypedPort same_mem p;
        mmio = subst IsTypedPort same_mmio q;
        running = ground (arith, e);
        patience = ground (arith, e, few);
      }

  round-IsTyped : (s t : Sim M) → IsTyped s → round d s ≡ go_on t → IsTyped t
  unfolding round drain
  round-IsTyped s t ok e = elim (Option-cases (feed d s)) [
    | inl stop ↦ absurd (ground (arith, stop, e))
    | inr (s₁, one) ↦
        let half = feed-IsBetween s s₁ ok one in
        let s₂ = drain d s₁ in
        judge-IsTyped (record s₂ { model = clock d s₂.model }) t half.host
          (update_b-IsTypedPort s₁.mem _ half.mem) (update_b-IsTypedPort s₁.mmio _ half.mmio)
          half.patience (ground (arith, one, e))
  ]

  Reaches-IsTyped : {s t : Sim M} → Reaches d s t → IsTyped s → IsTyped t
  Reaches-IsTyped here ok = ok
  Reaches-IsTyped (next {s} {t} one rest) ok = Reaches-IsTyped rest (round-IsTyped s t ok one)

  -- If the ports of the design have their widths, and the segments fit, then in every state that the loop
  -- reaches from reset, the words of the memory and the data on both ports have 64 bits, the console shows
  -- bytes, no port owes or expects more than 256 beats, an outstanding acknowledgement comes behind the last
  -- beat, `finished` is not set, and fewer than 3 rounds have passed since a mismatch.
  pub start-IsTyped :
      (segments : List Segment) (mem : Memory) (ms : List M) (s : Sim M)
      → AllFit segments
      → load empty_memory segments ≡ some mem
      → Reaches d (start d ms (record { memory = mem; finished = false; console = [] })) s
      → IsTyped s
  unfolding start
  start-IsTyped segments mem ms s fits loads steps =
      let (mem', loads', words, image) =
        byte_at-load segments empty_memory fits (λ key. omega arith) in
      let same : mem' ≡ mem = ground (arith, loads, loads') in
      Reaches-IsTyped steps (record {
        host = record { words = subst IsWords same words; chars = tt };
        mem = idle-IsTypedPort;
        mmio = idle-IsTypedPort;
        running = refl;
        patience = omega arith;
      })
