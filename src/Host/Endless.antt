-- ===== src/Host/Endless.antt =====
-- When the loader of rocket/rocket-main.cpp comes to its end: its loop counts the bytes of a segment, whose size has
-- 64 bits, by an `unsigned`.
use arc_tests.Prelude.{
  ℕ, zero, suc, ◌+◌, ◌-◌, ◌^◌, ◌≤◌, ◌<◌, ◌≡◌, ◌≢◌, ◌↔◌, refl, arith, Bool, true, false, ◌&&◌, ◌||◌,
  ◌==◌, leb, ltb, not, none, Option-cases, Bool-cases, inl, inr, List, [], ◌∷◌, u32, u64,
}
use arc_tests.Host.Loader.{Segment, pt_load, segment_byte, fill, load_segment, load}
use arc_tests.Host.Memory.{Memory, store_byte}

-- A segment that the loop never gets to the end of.
abbrev pub endless : Segment → Bool
endless seg = seg.kind == pt_load && leb (2 ^ 32) seg.memory_size

abbrev pub any_endless : List Segment → Bool
any_endless [] = false
any_endless (seg ∷ segs) = endless seg || any_endless segs

fill-endless :
    (left : ℕ) (seg : Segment) (i : ℕ) (mem : Memory)
    → 2 ^ 32 ≤ seg.memory_size
    → i < 2 ^ 32
    → fill left seg i mem ≡ none
unfolding fill
fill-endless zero seg i mem big small = refl
fill-endless (suc left) seg i mem big small =
    let more : ltb i seg.memory_size ≡ true = ground (arith, big, small) in
    let wraps : u32 (i + 1) < 2 ^ 32 = omega arith in
    rw more (
      fill-endless left seg (u32 (i + 1))
        (store_byte mem (u64 (seg.physical_address + i)) (segment_byte seg i)) big wraps)

fill-ne-none :
    (left : ℕ) (seg : Segment) (i : ℕ) (mem : Memory)
    → seg.memory_size < 2 ^ 32
    → i ≤ seg.memory_size
    → seg.memory_size - i < left
    → fill left seg i mem ≢ none
unfolding fill
fill-ne-none zero seg i mem small le enough e = absurd (omega (arith, enough))
fill-ne-none (suc left) seg i mem small le enough e = elim (Bool-cases (ltb i seg.memory_size)) [
  | inr ends ↦ ground (arith, ends, e)
  | inl more ↦
      let counted : u32 (i + 1) ≡ i + 1 = ground (arith, more, small) in
      fill-ne-none left seg (i + 1)
        (store_byte mem (u64 (seg.physical_address + i)) (segment_byte seg i)) small
        (ground (arith, more)) (ground (arith, more, enough)) (ground (arith, more, counted, e))
]

load_segment-endless :
    (mem : Memory) (seg : Segment) → endless seg ≡ true → load_segment mem seg ≡ none
unfolding load_segment
load_segment-endless mem seg h =
    let big : 2 ^ 32 ≤ seg.memory_size = ground (arith, h) in
    ground (arith, h, fill-endless (seg.memory_size + 1) seg 0 mem big (omega arith))

load_segment-ne-none :
    (mem : Memory) (seg : Segment) → endless seg ≡ false → load_segment mem seg ≢ none
unfolding load_segment
load_segment-ne-none mem seg h e =
    elim (Bool-cases (not (seg.kind == pt_load) || seg.memory_size == 0)) [
      | inl skipped ↦ ground (arith, skipped, e)
      | inr taken ↦
          fill-ne-none (seg.memory_size + 1) seg 0 mem (ground (arith, taken, h)) (omega arith)
            (omega arith) (ground (arith, taken, e))
    ]

-- The loader does not end exactly if a loadable segment has 4 gigabytes or more.
pub load-eq-none_iff :
    (segs : List Segment) (mem : Memory) → (load mem segs ≡ none) ↔ (any_endless segs ≡ true)
unfolding load
load-eq-none_iff [] mem = ground arith
load-eq-none_iff (seg ∷ segs) mem = elim (Bool-cases (endless seg)) [
  | inl never ↦ ground (arith, never, load_segment-endless mem seg never)
  | inr fine ↦ elim (Option-cases (load_segment mem seg)) [
    | inl e ↦ absurd (load_segment-ne-none mem seg fine e)
    | inr (mem', e) ↦ ground (arith, fine, e, load-eq-none_iff segs mem')
  ]
]
