-- ===== src/Console/Text.antt =====
-- What any text that goes through `putchar` of benchmarks/common/syscalls.c makes the driver print.
pub mod Tests
use arc_tests.Prelude.{
  ℕ, zero, suc, ◌+◌, ◌-◌, ◌^◌, ◌<◌, ◌≤◌, ◌≡◌, ◌≢◌, inl, inr, refl, ap, ◌∙◌, sym, arith, some, none,
  Bool, true, false, ◌==◌, ◌||◌, if◌then◌else◌, List, [], ◌∷◌, ◌++◌, length, flatten, u8,
  Bool-cases,
}
use native.Mathlib.Nat.{add-zero}
use mathlib.Core.List.{append_assoc, append-nil}
use arc_tests.Host.Device.{Host}
use arc_tests.Host.Console.{bytes_from, bytes_from-append, bytes_from_ext, upto_nul, has_nul}
use arc_tests.Guest.Memory.{Mem, IsBytes, poke}
use arc_tests.Guest.Print.{IsText, put_all}
use arc_tests.Guest.Stdio.{Output, putchar}
use arc_tests.Guest.Syscall.{tohost_data, tohost_data_size}
use arc_tests.Console.Link.{mmio_bus, sent_byte}
use arc_tests.Console.Strings.{area-bytes}
use arc_tests.Console.Chunks.{ends_chunk, chunks, shown, HaveRoom, flatten-chunks}
use arc_tests.Console.Lines.{length-snoc, put_flush}

length-upto_nul : (f : ℕ → ℕ) (addr n : ℕ) → length (upto_nul (bytes_from f addr n)) ≤ n
unfolding upto_nul bytes_from
length-upto_nul f addr zero = omega arith
length-upto_nul f addr (suc n) = ground (arith, length-upto_nul f (addr + 1) n)

has_nul-snoc : (xs : List ℕ) (c : ℕ) → has_nul xs ≡ false → 0 < c → has_nul (xs ++ c ∷ []) ≡ false
unfolding has_nul
has_nul-snoc [] c h pos = ground (arith, pos)
has_nul-snoc (x ∷ xs) c h pos = ground (arith, h, has_nul-snoc xs c)

-- What stands in the buffer.
abbrev pub Pends : ℕ → Output Host → List ℕ → Type 0
Pends buf out pending =
    IsBytes out.mem
    × (out.buflen ≡ length pending)
    × (bytes_from out.mem buf (length pending) ≡ pending)
    × (has_nul pending ≡ false)
    × (length pending < 64)

-- The buffer with one more character.
poked :
    (buf c : ℕ) (out : Output Host) (pending : List ℕ)
    → Pends buf out pending
    → c < 2 ^ 8
    → bytes_from (poke out.mem (buf + out.buflen) (u8 c)) buf (length (pending ++ c ∷ []))
      ≡ pending ++ c ∷ []
unfolding bytes_from
poked buf c out pending (bytes, size, stands, no_nul, lt) fits =
    let n = length pending in
    let mem' = poke out.mem (buf + out.buflen) (u8 c) in
    let front : bytes_from mem' buf n ≡ pending =
      bytes_from_ext mem' out.mem buf buf n (λ i hi. ground (arith, size)) ∙ stands in
    let last : mem' (buf + n) ≡ c = ground (arith, size, fits) in
    ap (bytes_from mem' buf) (length-snoc pending c)
    ∙ bytes_from-append mem' buf n 1
    ∙ rw (front, last) refl

-- What is printed of a text, from a buffer in which `pending` stands.
abbrev pub Prints : ℕ → Output Host → Output Host → List ℕ → List ℕ → Type 0
Prints buf out out' pending text =
    (tails : List (List ℕ)) × HaveRoom (chunks pending text).0 tails
    × (out'.device.console ≡ out.device.console ++ shown (chunks pending text).0 tails)
    × (out'.device.finished ≡ out.device.finished)
    × Pends buf out' (chunks pending text).1

put_keep :
    (polls buf c : ℕ) (out : Output Host) (pending : List ℕ)
    → out.buflen ≡ length pending
    → ends_chunk pending c ≡ false
    → putchar mmio_bus polls buf out c
      ≡ some (record out { mem = poke out.mem (buf + out.buflen) (u8 c); buflen = out.buflen + 1 })
unfolding putchar
put_keep polls buf c out pending size longer = ground (arith, size, longer)

-- What a flush prints: what stands in the buffer, with a tail that fits behind it.
flushed :
    (buf : ℕ) (mem : Mem) (h : Host) (now : List ℕ)
    → bytes_from mem buf (length now) ≡ now
    → has_nul now ≡ false
    → length now ≤ 64
    → (tail : List ℕ) × (length now + length tail ≤ 64)
      × (upto_nul (bytes_from (sent_byte mem buf (length now) h) tohost_data 64) ≡ now ++ tail)
flushed buf mem h now stands no_nul le =
    let f = sent_byte mem buf (length now) h in
    let n = length now in
    (
      upto_nul (bytes_from f (tohost_data + n) (64 - n)),
      omega (arith, le, length-upto_nul f (tohost_data + n) (64 - n)),
      area-bytes now mem buf h stands no_nul le,
    )

regroup : (ws xs ys zs : List ℕ) → (ws ++ (xs ++ ys)) ++ zs ≡ ws ++ (xs ++ (ys ++ zs))
regroup ws xs ys zs = simp append_assoc

empty-Pends : (buf : ℕ) (out : Output Host) → IsBytes out.mem → out.buflen ≡ 0 → Pends buf out []
unfolding bytes_from has_nul
empty-Pends buf out bytes empty = (bytes, empty, refl, refl, omega arith)

put_all-cons :
    (polls buf c : ℕ) (cs : List ℕ) (out out₁ : Output Host)
    → putchar mmio_bus polls buf out c ≡ some out₁
    → put_all mmio_bus polls buf out (c ∷ cs) ≡ put_all mmio_bus polls buf out₁ cs
unfolding put_all
put_all-cons polls buf c cs out out₁ one = rw (one, put_all) refl

put_all-Prints :
    (polls buf : ℕ) (text : List ℕ) (out : Output Host) (pending : List ℕ)
    → Pends buf out pending
    → IsText text
    → (out' : Output Host) × (put_all mmio_bus (suc polls) buf out text ≡ some out')
      × Prints buf out out' pending text
unfolding put_all chunks
put_all-Prints polls buf [] out pending p h =
    (out, refl, ([], tt, sym (append-nil out.device.console), refl, p))
put_all-Prints polls buf (c ∷ cs) out pending p h =
    let (bytes, size, stands, no_nul, lt) = p in
    let mem' = poke out.mem (buf + out.buflen) (u8 c) in
    let now : List ℕ = pending ++ c ∷ [] in
    let long = length-snoc pending c in
    let stands' = poked buf c out pending p h.1 in
    let no_nul' = has_nul-snoc pending c no_nul h.0 in
    let bytes' : IsBytes mem' = λ q. ground (arith, bytes q) in
    elim (Bool-cases (ends_chunk pending c)) [
      | inl ended ↦
          let (h', one, prints, same) =
            put_flush polls buf c out bytes (ground (arith, size, ended)) in
          let out₁ : Output Host = record { mem = mem'; buflen = 0; device = h' } in
          let (out', runs, (tails, room, console, finished, pends)) =
            put_all-Prints polls buf cs out₁ [] (empty-Pends buf out₁ bytes' refl) h.2 in
          let (tail, fits, area) =
            flushed buf mem' out.device now stands' no_nul' (omega (arith, long, lt)) in
          let count : out.buflen + 1 ≡ length now = omega (arith, size, long) in
          let first : h'.console ≡ out.device.console ++ (now ++ tail) =
            prints
            ∙ ap
                (λ n.
                  out.device.console
                  ++ upto_nul (bytes_from (sent_byte mem' buf n out.device) tohost_data 64))
                count
            ∙ ap (λ cs. out.device.console ++ cs) area in
          let whole =
            console
            ∙ ap (λ before. before ++ shown (chunks [] cs).0 tails) first
            ∙ regroup out.device.console now tail (shown (chunks [] cs).0 tails) in
          (
            out',
            put_all-cons (suc polls) buf c cs out out₁ one ∙ runs,
            rw ended (tail ∷ tails, (fits, room), whole, finished ∙ same, pends),
          )
      | inr longer ↦
          let out₁ : Output Host = record out { mem = mem'; buflen = out.buflen + 1 } in
          let one = put_keep (suc polls) buf c out pending size longer in
          let (out', runs, rest) =
            put_all-Prints polls buf cs out₁ now
              (
                bytes',
                omega (arith, size, long),
                stands',
                no_nul',
                ground (arith, longer, long, lt),
              )
              h.2 in
          (out', put_all-cons (suc polls) buf c cs out out₁ one ∙ runs, rw longer rest)
    ]

module _ (polls buf : ℕ) (out : Output Host) (text : List ℕ) where
  -- The characters of a text, bytes and none of them NUL, that go through `putchar` one by one from an empty buffer, come out
  -- at the driver in their order: the text is cut behind each end of a line and wherever 64 characters are together, and the
  -- driver prints each chunk with a tail that fits behind it in the 64 bytes of the data area. What is left behind the last
  -- chunk is fewer than 64 characters, and stands in the buffer.
  pub put_all-text :
      IsBytes out.mem
      → out.buflen ≡ 0
      → IsText text
      → let (sent, left) = chunks [] text in
        (flatten sent ++ left ≡ text)
        × (length left < 64)
        × (out' : Output Host) × (tails : List (List ℕ)) × (put_all mmio_bus
              (suc polls)
              buf
              out
              text
            ≡ some out')
        × HaveRoom sent tails
        × (out'.device.console ≡ out.device.console ++ shown sent tails)
        × (out'.device.finished ≡ out.device.finished)
        × (out'.buflen ≡ length left)
        × (bytes_from out'.mem buf (length left) ≡ left)
  put_all-text bytes empty h =
      let (out', runs, (tails, room, console, finished, pends)) =
        put_all-Prints polls buf text out [] (empty-Pends buf out bytes empty) h in
      (
        flatten-chunks [] text,
        pends.4,
        out',
        tails,
        runs,
        room,
        console,
        finished,
        pends.1,
        pends.2,
      )
