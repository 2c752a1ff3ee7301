-- ===== src/Host/Widths.antt =====
-- The widths of what the callbacks of rocket/rocket-main.cpp share: words of 64 bits in the memory, and bytes
-- on the console.
use arc_tests.Prelude.{
  ℕ, zero, suc, ◌+◌, ◌^◌, ◌<◌, ◌≡◌, arith, some, Option-cases, inl, inr, ◌==◌, List, [], ◌∷◌, ◌++◌,
  Bool-cases,
}
use mathlib.Core.Path.{subst}
use arc_tests.Axi.Port.{read_data, store}
use arc_tests.Axi.Widths.{KeepsWidths}
use arc_tests.Host.Console.{print_words_slots}
use arc_tests.Host.Device.{
  Host, mem_read, mem_write, mmio_read, mmio_write, mem_port, mmio_port, print_bytes, print_words,
  printed, mmio_write_outcome, success_line, tohost_addr, tohost_data_addr, sys_write,
}
use arc_tests.Host.Memory.{Memory, IsWords, slot, word_of, assign, touch}
use arc_tests.Host.Word.{get_byte}

abbrev pub AreBytes : List ℕ → Type 0
AreBytes [] = Unit
AreBytes (c ∷ cs) = (c < 2 ^ 8) × AreBytes cs

pub record IsTypedHost (h : Host) : Type 0 where
  pub words : IsWords h.memory
  pub chars : AreBytes h.console

AreBytes-append : (xs ys : List ℕ) → AreBytes xs → AreBytes ys → AreBytes (xs ++ ys)
AreBytes-append [] ys hx hy = hy
AreBytes-append (x ∷ xs) ys hx hy = (hx.0, AreBytes-append xs ys hx.1 hy)

success_line-AreBytes : AreBytes success_line
success_line-AreBytes = omega arith

print_bytes-AreBytes : (left k word : ℕ) → AreBytes (print_bytes left k word).0
unfolding print_bytes
print_bytes-AreBytes zero k word = tt
print_bytes-AreBytes (suc left) k word =
    let more = print_bytes-AreBytes left (k + 1) word in
    elim (Bool-cases (get_byte word k == 0)) [
      | inl nul ↦ rw nul (omega arith, tt)
      | inr char ↦ rw char (omega arith, more)
    ]

print_words-AreBytes : (left i : ℕ) (mem : Memory) → AreBytes (print_words left i mem).1
unfolding print_words
print_words-AreBytes zero i mem = tt
print_words-AreBytes (suc left) i mem =
    let here = tohost_data_addr + i in
    let chars = print_bytes-AreBytes 8 0 (slot mem here) in
    let more = print_words-AreBytes left (i + 8) (touch mem here) in
    elim (Bool-cases (print_bytes 8 0 (slot mem here)).1) [
      | inl nul ↦ rw nul chars
      | inr none_yet ↦
          rw none_yet (AreBytes-append (print_bytes 8 0 (slot mem here)).0 _ chars more)
    ]

assign-IsWords :
    (mem : Memory) (addr word : ℕ) → IsWords mem → word < 2 ^ 64 → IsWords (assign mem addr word)
assign-IsWords mem addr word words small key = ground (arith, words key)

mem_read-lt : (h : Host) (addr word : ℕ) → IsTypedHost h → mem_read h addr word < 2 ^ 64
unfolding mem_read
mem_read-lt h addr word ok = elim (Option-cases (h.memory (word_of addr))) [
  | inl missing ↦ ground (arith, missing)
  | inr (w, there) ↦ let fits = ok.words (word_of addr) in ground (arith, there, fits)
]

pub mem_port-KeepsWidths : KeepsWidths mem_port IsTypedHost
unfolding read_data store mem_write
mem_port-KeepsWidths = record {
  reads = λ s addr ok. mem_read-lt s addr 0 ok;
  stores = λ s addr word mask {s'} ok small e.
      let same : record s { memory = assign s.memory (word_of addr) word } ≡ s' =
        ground (arith, e) in
      subst IsTypedHost same (record {
        words = assign-IsWords s.memory (word_of addr) word ok.words small;
        chars = ok.chars;
      });
}

printed-AreBytes : (h : Host) (addr word : ℕ) → AreBytes (printed h addr word)
printed-AreBytes h addr word = elim (Bool-cases (addr == tohost_addr)) [
  | inr other ↦ rw other tt
  | inl tohost ↦ elim (Bool-cases (word == 1)) [
    | inl ending ↦ rw (tohost, ending) success_line-AreBytes
    | inr going ↦ elim (Bool-cases (word == sys_write)) [
      | inl write ↦
          rw (tohost, going, write) (print_words-AreBytes 8 0 (assign h.memory (word_of addr) word))
      | inr nothing ↦ rw (tohost, going, nothing) tt
    ]
  ]
]

-- Printing only reads: the words are those that the store leaves.
mmio_write_words :
    (h : Host) (addr word mask : ℕ) {h' : Host} (key : ℕ)
    → mmio_write h addr word mask ≡ some h'
    → slot h'.memory key ≡ slot (assign h.memory (word_of addr) word) key
unfolding mmio_write
mmio_write_words h addr word mask key e =
    ground (arith, e, print_words_slots 8 0 (assign h.memory (word_of addr) word) key)

-- A store to the device, whatever it does.
mmio_write-IsTypedHost :
    (h : Host) (addr word mask : ℕ) {h' : Host}
    → IsTypedHost h
    → word < 2 ^ 64
    → mmio_write h addr word mask ≡ some h'
    → IsTypedHost h'
mmio_write-IsTypedHost h addr word mask {h' = h'} ok small e = record {
  words = λ key.
      rw (mmio_write_words h addr word mask key e)
        (assign-IsWords h.memory (word_of addr) word ok.words small key);
  chars =
      rw (mmio_write_outcome h addr word mask e).2
        (AreBytes-append h.console (printed h addr word) ok.chars (printed-AreBytes h addr word));
}

pub mmio_port-KeepsWidths : KeepsWidths mmio_port IsTypedHost
unfolding read_data store mmio_read
mmio_port-KeepsWidths = record {
  reads = λ s addr ok. ground arith;
  stores = λ s addr word mask ok small e. mmio_write-IsTypedHost s addr word mask ok small e;
}
