-- ===== src/Host/Console.antt =====
-- What the device of rocket/rocket-main.cpp prints: a C string in the data area.
use mathlib.Core.Path.{ap₂}
use native.Mathlib.Nat.{add-zero, add_assoc, add_comm}
use arc_tests.Prelude.{
  ℕ, zero, suc, ◌+◌, ◌*◌, ◌%◌, ◌<◌, ◌≡◌, refl, ap, ◌∙◌, sym, arith, some, ◌==◌, ◌||◌, if◌then◌else◌,
  Bool, false, List, [], ◌∷◌, ◌++◌,
}
use arc_tests.Host.Memory.{Memory, word_of, slot, assign, touch, byte_at}
use arc_tests.Host.Word.{get_byte}
use arc_tests.Host.Device.{
  Host, print_bytes, print_words, mmio_write, tohost_addr, tohost_data_addr, sys_write,
  tohost_data_size,
}

-- `n` bytes from an address on.
unfoldable pub bytes_from : (ℕ → ℕ) → ℕ → ℕ → List ℕ
bytes_from f addr zero = []
bytes_from f addr (suc n) = f addr ∷ bytes_from f (addr + 1) n

-- A list up to its first NUL, that NUL included; all of it if there is none.
unfoldable pub upto_nul : List ℕ → List ℕ
upto_nul [] = []
upto_nul (c ∷ cs) = if c == 0 then c ∷ [] else c ∷ upto_nul cs

unfoldable pub has_nul : List ℕ → Bool
has_nul [] = false
has_nul (c ∷ cs) = c == 0 || has_nul cs

pub upto_nul-append :
    (xs ys : List ℕ) → upto_nul (xs ++ ys) ≡ (if has_nul xs then upto_nul xs else xs ++ upto_nul ys)
unfolding upto_nul has_nul
upto_nul-append [] ys = refl
upto_nul-append (x ∷ xs) ys = ground (arith, upto_nul-append xs ys)

upto_nul_all : (xs : List ℕ) → has_nul xs ≡ false → upto_nul xs ≡ xs
unfolding upto_nul has_nul
upto_nul_all [] h = refl
upto_nul_all (x ∷ xs) h = ground (arith, upto_nul_all xs)

pub bytes_from-append :
    (f : ℕ → ℕ) (addr n m : ℕ)
    → bytes_from f addr (n + m) ≡ bytes_from f addr n ++ bytes_from f (addr + n) m
unfolding bytes_from
bytes_from-append f addr zero m = ap₂ (bytes_from f) (omega arith) (omega arith)
bytes_from-append f addr (suc n) m =
    let more : suc n + m ≡ suc (n + m) = omega arith in
    let shift : addr + suc n ≡ addr + 1 + n = omega arith in
    rw (more, shift) (ap (λ cs. f addr ∷ cs) (bytes_from-append f (addr + 1) n m))

-- Two stretches of bytes are the same if they are so byte by byte.
pub bytes_from_ext :
    (f g : ℕ → ℕ) (a b n : ℕ)
    → ((i : ℕ) → i < n → f (a + i) ≡ g (b + i))
    → bytes_from f a n ≡ bytes_from g b n
unfolding bytes_from
bytes_from_ext f g a b zero same = refl
bytes_from_ext f g a b (suc n) same =
    let first : f a ≡ g b = ap f (sym (add-zero a)) ∙ same 0 (omega arith) ∙ ap g (add-zero b) in
    let later =
      bytes_from_ext f g (a + 1) (b + 1) n
        (λ i h. rw (add_assoc, add_assoc b 1 i, add_comm 1 i) (same (i + 1) (omega arith))) in
    rw (first, later) refl

-- The inner loop prints a word's bytes up to the first NUL.
print_bytes_lem :
    (left k word : ℕ) → (print_bytes left k word).0 ≡ upto_nul (bytes_from (get_byte word) k left)
unfolding print_bytes upto_nul bytes_from
print_bytes_lem zero k word = refl
print_bytes_lem (suc left) k word = ground (arith, print_bytes_lem left (k + 1) word)

print_bytes_ended :
    (left k word : ℕ) → (print_bytes left k word).1 ≡ has_nul (bytes_from (get_byte word) k left)
unfolding print_bytes has_nul bytes_from
print_bytes_ended zero k word = refl
print_bytes_ended (suc left) k word = ground (arith, print_bytes_ended left (k + 1) word)

-- The bytes of a word are those of the memory from its address on.
bytes_from-word :
    (mem : Memory) (addr : ℕ)
    → addr % 8 ≡ 0
    → bytes_from (get_byte (slot mem addr)) 0 8 ≡ bytes_from (byte_at mem) addr 8
bytes_from-word mem addr aligned =
    bytes_from_ext (get_byte (slot mem addr)) (byte_at mem) 0 addr 8 λ i h.
      let key : word_of (addr + i) ≡ addr = omega arith in
      let position : (addr + i) % 8 ≡ 0 + i = omega arith in rw (key, position) refl

-- Reading by `memory[…]` changes no byte.
slot-touch : (mem : Memory) (addr key : ℕ) → slot (touch mem addr) key ≡ slot mem key
slot-touch mem addr key = ground arith

pub print_words_slots :
    (left i : ℕ) (mem : Memory) (key : ℕ) → slot (print_words left i mem).0 key ≡ slot mem key
unfolding print_words
print_words_slots zero i mem key = refl
print_words_slots (suc left) i mem key = ground (
  arith,
  print_words_slots left (i + 8) (touch mem (tohost_data_addr + i)) key,
  slot-touch mem (tohost_data_addr + i) key,
)

bytes_from-touch :
    (mem : Memory) (at addr n : ℕ)
    → bytes_from (byte_at (touch mem at)) addr n ≡ bytes_from (byte_at mem) addr n
bytes_from-touch mem at addr n =
    bytes_from_ext (byte_at (touch mem at)) (byte_at mem) addr addr n
      λ i h. ap (λ w. get_byte w ((addr + i) % 8)) (slot-touch mem at (word_of (addr + i)))

-- The outer loop prints the bytes of its words up to the first NUL.
print_words_lem :
    (left i : ℕ) (mem : Memory)
    → i % 8 ≡ 0
    → (print_words left i mem).1
      ≡ upto_nul (bytes_from (byte_at mem) (tohost_data_addr + i) (left * 8))
unfolding print_words
print_words_lem zero i mem aligned = unfold bytes_from upto_nul in refl
print_words_lem (suc left) i mem aligned =
    let addr = tohost_data_addr + i in
    let word = bytes_from (byte_at mem) addr 8 in
    let later = bytes_from (byte_at mem) (addr + 8) (left * 8) in
    let size : suc left * 8 ≡ 8 + left * 8 = omega arith in
    let same : bytes_from (get_byte (slot mem addr)) 0 8 ≡ word =
      bytes_from-word mem addr (omega arith) in
    let next : tohost_data_addr + (i + 8) ≡ addr + 8 = omega arith in
    let rest : (print_words left (i + 8) (touch mem addr)).1 ≡ upto_nul later =
      print_words_lem left (i + 8) (touch mem addr) (omega arith)
      ∙ rw next (ap upto_nul (bytes_from-touch mem addr (addr + 8) (left * 8))) in
    rw (size, bytes_from-append (byte_at mem) addr 8 (left * 8), upto_nul-append word later)
      (ground (
        arith,
        rest,
        print_bytes_lem 8 0 (slot mem addr) ∙ ap upto_nul same,
        print_bytes_ended 8 0 (slot mem addr) ∙ ap has_nul same,
        upto_nul_all word,
      ))

-- A full 64-bit write of `SYS_write` to `tohost` is always accepted, prints the 64 bytes of the data area up to its first
-- NUL, the NUL included, and otherwise leaves the memory as the write alone would, and `finished` as it was.
pub mmio_write-sys_write :
    (h : Host)
    → let stored = assign h.memory tohost_addr sys_write in
      (h' : Host) × (mmio_write h tohost_addr sys_write 0xff ≡ some h')
      × (h'.console
          ≡ h.console ++ upto_nul (bytes_from (byte_at stored) tohost_data_addr tohost_data_size))
      × (h'.finished ≡ h.finished)
      × ((addr : ℕ) → byte_at h'.memory addr ≡ byte_at stored addr)
unfolding mmio_write
mmio_write-sys_write h =
    let stored = assign h.memory tohost_addr sys_write in
    (
      record h {
        memory = (print_words 8 0 stored).0;
        console = h.console ++ (print_words 8 0 stored).1;
      },
      refl,
      ap (λ cs. h.console ++ cs) (print_words_lem 8 0 stored refl),
      refl,
      λ addr. ap (λ w. get_byte w (addr % 8)) (print_words_slots 8 0 stored (word_of addr)),
    )
