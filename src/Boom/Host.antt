-- ===== src/Boom/Host.antt =====
-- "Read ELF into memory" and the closures of the ports in boom/boom-main.cpp.
use mathlib.Core.Option
use mathlib.Core.Path.{ap₂, fun_ext}
use mathlib.Core.List.{append_assoc, append-nil}
use arc_tests.Prelude.{
  ℕ, zero, suc, ◌+◌, ◌-◌, ◌*◌, ◌/◌, ◌%◌, ◌^◌, ◌≡◌, refl, ap, ◌∙◌, arith, Bool, true, false, Option,
  none, some, Option-cases, inl, inr, ◌==◌, ltb, ◌||◌, not, if◌then◌else◌, List, [], ◌∷◌, ◌++◌,
  codes, bit_and, bit_or, u32, u64, ◌<<<◌, ◌>>>◌, Bool-cases,
}
use arc_tests.Axi.Port.{Callbacks}
use arc_tests.Host.Memory.{Memory, slot, assign, touch, store_byte}
use arc_tests.Host.Word.{set_byte, not64}
use arc_tests.Host.Loader as Loader
use arc_tests.Host.Loader.{Segment, fill, load_segment, pt_load}
use arc_tests.Host.Device as Device
use arc_tests.Host.Device.{Host, print_bytes, print_words}

-- The body of the loop over the bytes of a segment.
unfoldable pub copy_byte : Segment → ℕ → Memory → Memory
copy_byte seg i mem =
    let addr = u64 (seg.physical_address + i) in
    let byte = if ltb i seg.file_size then seg.bytes i else 0 in
    let key = addr / 8 * 8 in
    let cleared = bit_and (Option.get_or (mem key) 0) (not64 (u64 (0xff <<< (addr % 8 * 8)))) in
    assign mem key (bit_or cleared (u64 (byte <<< (addr % 8 * 8))))

-- The loop, with the rounds that are left; `none` for a size that 32 bits cannot count, at which it never ends.
unfoldable pub copy_bytes : ℕ → Segment → ℕ → Memory → Option Memory
copy_bytes zero seg i mem = none
copy_bytes (suc left) seg i mem =
    let rest = copy_bytes left seg (u32 (i + 1)) (copy_byte seg i mem) in
    if ltb i seg.memory_size then rest else some mem

-- The loop over the segments.
unfoldable pub read_elf : List Segment → Memory → Option Memory
read_elf [] mem = some mem
read_elf (seg ∷ segs) mem = elim (not (seg.kind == 1) || seg.memory_size == 0) [
  | true ↦ read_elf segs mem
  | false ↦ elim (copy_bytes (seg.memory_size + 1) seg 0 mem) [
    | none ↦ none
    | some mem' ↦ read_elf segs mem'
  ]
]

-- `mem_port.readFn`.
unfoldable pub read_mem : Host → ℕ → ℕ → ℕ
read_mem h addr word = Option.get_or (h.memory (addr / 8 * 8)) 0x1050007310500073

-- `mem_port.writeFn`. `none` is the assertion.
unfoldable pub write_mem : Host → ℕ → ℕ → ℕ → Option Host
write_mem h addr word mask =
    if not (mask == 0xff)
    then none
    else some (record h { memory = assign h.memory (addr / 8 * 8) word })

-- The loop over the bytes of a word behind what is printed: all that is printed then, and whether the closure returns.
unfoldable pub put_bytes : ℕ → ℕ → ℕ → List ℕ → List ℕ × Bool
put_bytes zero k word out = (out, false)
put_bytes (suc left) k word out =
    let c = word >>> (k * 8) % 256 in
    let rest = put_bytes left (k + 1) word (out ++ (c ∷ [])) in
    if c == 0 then (out ++ (c ∷ []), true) else rest

-- The loop over the words of the data area.
unfoldable pub put_words : ℕ → ℕ → Memory → List ℕ → Memory × List ℕ
put_words zero i mem out = (mem, out)
put_words (suc left) i mem out =
    let addr = 0x60000080 + i in
    let (out', returns) = put_bytes 8 0 (slot mem addr) out in
    let rest = put_words left (i + 8) (touch mem addr) out' in
    if returns then (touch mem addr, out') else rest

-- `mmio_port.writeFn`, behind its assertion.
unfoldable pub device : Host → ℕ → Host
device h word =
    let (mem, out) = put_words 8 0 h.memory h.console in
    if word == 1
    then record h { finished = true; console = h.console ++ codes "Benchmark run successful!\n" }
    else if word == 64
    then record h { memory = mem; console = out }
    else h

unfoldable pub write_mmio : Host → ℕ → ℕ → ℕ → Option Host
write_mmio h addr word mask =
    let stored = record h { memory = assign h.memory (addr / 8 * 8) word } in
    if not (mask == 0xff)
    then none
    else some (if addr == 0x60000000 then device stored word else stored)

-- `mmio_port.readFn`: `data = -1` or no assignment.
unfoldable pub read_mmio : Host → ℕ → ℕ → ℕ
read_mmio h addr word = if addr == 0x60000040 then 2 ^ 64 - 1 else word

abbrev pub mem_port : Callbacks Host
mem_port = record { read_fn = some read_mem; write_fn = some write_mem }

abbrev pub mmio_port : Callbacks Host
mmio_port = record { read_fn = some read_mmio; write_fn = some write_mmio }

copy_byte_same :
    (seg : Segment) (i : ℕ) (mem : Memory)
    → copy_byte seg i mem
      ≡ store_byte mem (u64 (seg.physical_address + i)) (Loader.segment_byte seg i)
unfolding copy_byte store_byte set_byte
copy_byte_same seg i mem = refl

copy_bytes_same :
    (left : ℕ) (seg : Segment) (i : ℕ) (mem : Memory)
    → copy_bytes left seg i mem ≡ fill left seg i mem
unfolding copy_bytes fill
copy_bytes_same zero seg i mem = refl
copy_bytes_same (suc left) seg i mem =
    ap (λ rest. if ltb i seg.memory_size then rest else some mem)
      (copy_bytes_same left seg (u32 (i + 1)) (copy_byte seg i mem)
        ∙ ap (fill left seg (u32 (i + 1))) (copy_byte_same seg i mem))

pub read_elf_same : (segs : List Segment) (mem : Memory) → read_elf segs mem ≡ Loader.load mem segs
unfolding read_elf Loader.load load_segment
read_elf_same [] mem = refl
read_elf_same (seg ∷ segs) mem = elim (Bool-cases (not (seg.kind == 1) || seg.memory_size == 0)) [
  | inl skipped ↦ ground (arith, skipped, read_elf_same segs mem)
  | inr kept ↦ elim (Option-cases (fill (seg.memory_size + 1) seg 0 mem)) [
    | inl failed ↦ ground (arith, kept, failed, copy_bytes_same (seg.memory_size + 1) seg 0 mem)
    | inr (mem', done) ↦ ground (
      arith,
      kept,
      done,
      copy_bytes_same (seg.memory_size + 1) seg 0 mem,
      read_elf_same segs mem',
    )
  ]
]

put_bytes_same :
    (left k word : ℕ) (out : List ℕ)
    → put_bytes left k word out ≡ (out ++ (print_bytes left k word).0, (print_bytes left k word).1)
unfolding put_bytes print_bytes
put_bytes_same zero k word out = ground (arith, append-nil out)
put_bytes_same (suc left) k word out =
    let c = word >>> (k * 8) % 256 in
    ground (
      arith,
      put_bytes_same left (k + 1) word (out ++ (c ∷ [])),
      append_assoc out (c ∷ []) (print_bytes left (k + 1) word).0,
    )

put_words_same :
    (left i : ℕ) (mem : Memory) (out : List ℕ)
    → put_words left i mem out ≡ ((print_words left i mem).0, out ++ (print_words left i mem).1)
unfolding put_words print_words
put_words_same zero i mem out = ground (arith, append-nil out)
put_words_same (suc left) i mem out =
    let addr = 0x60000080 + i in
    let shown = (print_bytes 8 0 (slot mem addr)).0 in
    let later = print_words left (i + 8) (touch mem addr) in
    ground (
      arith,
      put_bytes_same 8 0 (slot mem addr) out,
      put_words_same left (i + 8) (touch mem addr) (out ++ shown),
      append_assoc out shown later.1,
    )

write_mmio_same :
    (h : Host) (addr word mask : ℕ)
    → write_mmio h addr word mask ≡ Device.mmio_write h addr word mask
unfolding write_mmio Device.mmio_write device
write_mmio_same h addr word mask =
    ground (arith, put_words_same 8 0 (assign h.memory (addr / 8 * 8) word) h.console)

read_mem_same : (h : Host) (addr word : ℕ) → read_mem h addr word ≡ Device.mem_read h addr word
unfolding read_mem Device.mem_read
read_mem_same h addr word = ground arith

write_mem_same :
    (h : Host) (addr word mask : ℕ) → write_mem h addr word mask ≡ Device.mem_write h addr word mask
unfolding write_mem Device.mem_write
write_mem_same h addr word mask = ground arith

pub mem_port_same : mem_port ≡ Device.mem_port
mem_port_same =
    ap₂ (λ r w. record { read_fn = some r; write_fn = some w })
      (fun_ext λ h. fun_ext λ addr. fun_ext λ word. read_mem_same h addr word)
      (fun_ext λ h. fun_ext λ addr. fun_ext λ word. fun_ext λ mask. write_mem_same h addr word mask)

pub mmio_port_same : mmio_port ≡ Device.mmio_port
unfolding read_mmio Device.mmio_read
mmio_port_same =
    ap (λ w. record { read_fn = some read_mmio; write_fn = some w })
      (fun_ext
        λ h. fun_ext λ addr. fun_ext λ word. fun_ext λ mask. write_mmio_same h addr word mask)
