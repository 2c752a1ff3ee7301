-- ===== src/Host/Loader.antt =====
-- "Read ELF into memory" of rocket/rocket-main.cpp, over the segments that ELFIO gives.
use arc_tests.Prelude.{
  ap, ◌∙◌, ℕ, zero, suc, ◌+◌, ◌-◌, ◌^◌, ◌<◌, ◌≤◌, ◌≡◌, refl, arith, Option, none, some, ◌==◌, ltb,
  leb, ◌||◌, ◌&&◌, not, if◌then◌else◌, Bool, List, [], ◌∷◌, u32, u64, Bool-cases, inl, inr,
}
use mathlib.Core.Path.{fun_ext}
use arc_tests.Host.Memory.{
  Memory, IsWords, byte_at, store_byte, byte_at-store_byte, store_byte-IsWords,
}

-- What the loader asks of an ELFIO segment: `get_type`, `get_physical_address`, `get_memory_size`,
-- `get_file_size` and `get_data()[i]`.
pub record Segment : Type 0 where
  pub kind : ℕ
  pub physical_address : ℕ
  pub memory_size : ℕ
  pub file_size : ℕ
  pub bytes : ℕ → ℕ

abbrev pub pt_load : ℕ
pt_load = 1

-- Byte `i` of a segment in memory: zero past the bytes that the file has.
abbrev pub segment_byte : Segment → ℕ → ℕ
segment_byte seg i = if ltb i seg.file_size then seg.bytes i else 0

-- `for (unsigned i = 0; i < segment->get_memory_size(); ++i)`, with the rounds that are left.
-- The size has 64 bits and `i` has 32: at a size of 2 ^ 32 or more the loop never ends (`none`).
unfoldable pub fill : ℕ → Segment → ℕ → Memory → Option Memory
fill zero seg i mem = none
fill (suc left) seg i mem =
    let rest =
      fill left seg (u32 (i + 1))
        (store_byte mem (u64 (seg.physical_address + i)) (segment_byte seg i)) in
    if ltb i seg.memory_size then rest else some mem

-- One segment. Those that are not to be loaded, and empty ones, are passed over.
unfoldable pub load_segment : Memory → Segment → Option Memory
load_segment mem seg =
    if not (seg.kind == pt_load) || seg.memory_size == 0
    then some mem
    else fill (seg.memory_size + 1) seg 0 mem

unfoldable pub load : Memory → List Segment → Option Memory
load mem [] = some mem
load mem (seg ∷ segs) = elim (load_segment mem seg) [ none ↦ none | some mem' ↦ load mem' segs ]

-- A segment that the loader can place: its bytes are bytes, `i` can count them, and they lie in the
-- address space.
pub record Fits (seg : Segment) : Type 0 where
  pub counted : seg.memory_size < 2 ^ 32
  pub placed : seg.physical_address + seg.memory_size ≤ 2 ^ 64
  pub are_bytes : (i : ℕ) → seg.bytes i < 2 ^ 8

abbrev pub AllFit : List Segment → Type 0
AllFit [] = Unit
AllFit (seg ∷ segs) = Fits seg × AllFit segs

abbrev pub covers : Segment → ℕ → Bool
covers seg addr =
    seg.kind == pt_load
    && (leb seg.physical_address addr && ltb addr (seg.physical_address + seg.memory_size))

-- The memory image that a program's segments describe, over the bytes that were there: at each
-- address the last segment that covers it decides.
unfoldable pub image : List Segment → (ℕ → ℕ) → ℕ → ℕ
image [] old addr = old addr
image (seg ∷ segs) old addr =
    image segs (λ a. if covers seg a then segment_byte seg (a - seg.physical_address) else old a)
      addr

-- What the loop has done when it ends, started at index `i`.
record Filled (seg : Segment) (i : ℕ) (mem mem' : Memory) : Type 0 where
  words : IsWords mem'
  bytes :
      (addr : ℕ)
      → byte_at mem' addr ≡ (
          if leb (seg.physical_address + i) addr
            && ltb addr (seg.physical_address + seg.memory_size)
          then segment_byte seg (addr - seg.physical_address)
          else byte_at mem addr)

segment_byte-lt : (seg : Segment) (i : ℕ) → Fits seg → segment_byte seg i < 2 ^ 8
segment_byte-lt seg i fits = ground (arith, fits.are_bytes i)

-- One round stores byte `i`; the rest stores those behind it.
Filled-round :
    (seg : Segment) (i : ℕ) (mem mem' : Memory)
    → Fits seg
    → IsWords mem
    → i < seg.memory_size
    → Filled seg (i + 1) (store_byte mem (seg.physical_address + i) (segment_byte seg i)) mem'
    → Filled seg i mem mem'
Filled-round seg i mem mem' fits words lt rest = record {
  words = rest.words;
  bytes = λ addr. ground (
    arith,
    rest.bytes addr,
    byte_at-store_byte mem (seg.physical_address + i) (segment_byte seg i) addr words
        (segment_byte-lt seg i fits),
  );
}

fill-Filled :
    (left : ℕ) (seg : Segment) (i : ℕ) (mem : Memory)
    → Fits seg
    → IsWords mem
    → i ≤ seg.memory_size
    → seg.memory_size - i < left
    → (mem' : Memory) × (fill left seg i mem ≡ some mem') × Filled seg i mem mem'
unfolding fill
fill-Filled zero seg i mem fits words le enough = absurd (omega arith)
fill-Filled (suc left) seg i mem fits words le enough = elim (Bool-cases (ltb i seg.memory_size)) [
  | inr ends ↦ (mem, rw ends refl, record { words = words; bytes = λ addr. ground arith })
  | inl more ↦
      let counted : u32 (i + 1) ≡ i + 1 = ground arith in
      let placed : u64 (seg.physical_address + i) ≡ seg.physical_address + i = ground arith in
      let mem₁ = store_byte mem (seg.physical_address + i) (segment_byte seg i) in
      let words₁ =
        store_byte-IsWords mem (seg.physical_address + i) (segment_byte seg i) words
          (segment_byte-lt seg i fits) in
      let (mem', runs, filled) =
        fill-Filled left seg (i + 1) mem₁ fits words₁ (ground arith) (ground arith) in
      (
        mem',
        rw (more, counted, placed) runs,
        Filled-round seg i mem mem' fits words (ground arith) filled,
      )
]

record Loaded (seg : Segment) (mem mem' : Memory) : Type 0 where
  words : IsWords mem'
  bytes :
      (addr : ℕ)
      → byte_at mem' addr ≡ (
          if covers seg addr
          then segment_byte seg (addr - seg.physical_address)
          else byte_at mem addr)

load_segment-Loaded :
    (mem : Memory) (seg : Segment)
    → Fits seg
    → IsWords mem
    → (mem' : Memory) × (load_segment mem seg ≡ some mem') × Loaded seg mem mem'
unfolding load_segment
load_segment-Loaded mem seg fits words =
    elim (Bool-cases (not (seg.kind == pt_load) || seg.memory_size == 0)) [
      | inl skipped ↦ (mem, rw skipped refl, record { words = words; bytes = λ addr. ground arith })
      | inr taken ↦
          let (mem', runs, filled) =
            fill-Filled (seg.memory_size + 1) seg 0 mem fits words (omega arith) (omega arith) in
          (
            mem',
            rw taken runs,
            record { words = filled.words; bytes = λ addr. ground (arith, filled.bytes addr) },
          )
    ]

-- The image of a list depends on the bytes below it, after its first segment, byte by byte.
image-cons :
    (seg : Segment) (segs : List Segment) (old new : ℕ → ℕ) (addr : ℕ)
    → ((a : ℕ)
        → new a ≡ (if covers seg a then segment_byte seg (a - seg.physical_address) else old a))
    → image segs new addr ≡ image (seg ∷ segs) old addr
unfolding image
image-cons seg segs old new addr same = ap (λ f. image segs f addr) (fun_ext same)

-- Loading segments that fit always ends, keeps every word of the memory within 64 bits, and leaves at each
-- address the byte of the last loadable segment that covers it (zero past the part that the file
-- has), or the byte that was there.
pub byte_at-load :
    (segs : List Segment) (mem : Memory)
    → AllFit segs
    → IsWords mem
    → (mem' : Memory) × (load mem segs ≡ some mem')
      × IsWords mem'
      × ((addr : ℕ) → byte_at mem' addr ≡ image segs (byte_at mem) addr)
unfolding load
byte_at-load [] mem fits words = (mem, refl, words, unfold image in λ addr. refl)
byte_at-load (seg ∷ segs) mem (fits, rest_fit) words =
    let (mem₁, runs, one) = load_segment-Loaded mem seg fits words in
    let (mem₂, rest_runs, words₂, rest) = byte_at-load segs mem₁ rest_fit one.words in
    (
      mem₂,
      ground (arith, runs, rest_runs),
      words₂,
      λ addr. rest addr ∙ image-cons seg segs (byte_at mem) (byte_at mem₁) addr one.bytes,
    )
