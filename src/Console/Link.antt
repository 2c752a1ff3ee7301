-- ===== src/Console/Link.antt =====
-- What a `write` system call of a benchmark prints: the two programs, joined by the bus.
use mathlib.Core.Path.{ap₂}
use arc_tests.Prelude.{
  ℕ, zero, suc, ◌+◌, ◌-◌, ◌*◌, ◌/◌, ◌%◌, ◌<◌, ◌≤◌, ◌≡◌, refl, ◌∙◌, arith, some, ◌==◌, ltb, leb,
  ◌&&◌, if◌then◌else◌, false, ◌++◌, Bool-cases, inl, inr, min,
}
use arc_tests.Host.Memory.{word_of, assign, byte_at}
use arc_tests.Host.Device.{Host, mmio_read, mmio_write}
use arc_tests.Host.Console.{bytes_from, bytes_from_ext, upto_nul, mmio_write-sys_write}
use arc_tests.Guest.Memory.{Mem, IsBytes, load64, load64_byte}
use arc_tests.Guest.Syscall.{
  Bus, send_words, wait, syscall, ◌>>=◌, tohost, tohost_data, tohost_data_size, sys_write, fromhost,
}

-- The driver's end of the bus. The program's accesses have 64 bits, so the mask is full.
abbrev pub mmio_bus : Bus Host
mmio_bus = record {
  load = λ h addr. mmio_read h addr 0;
  store = λ h addr word. mmio_write h addr word 0xff;
}

-- The bytes that the copy loop sends for a length: whole words, at most the data area.
abbrev pub sent_size : ℕ → ℕ
sent_size n = (min n tohost_data_size + 7) / 8 * 8

-- A store outside `tohost` is kept, and has no other effect.
mmio_write-plain :
    (h : Host) (addr word : ℕ)
    → addr % 8 ≡ 0
    → (addr == tohost) ≡ false
    → mmio_write h addr word 0xff ≡ some (record h { memory = assign h.memory addr word })
unfolding mmio_write
mmio_write-plain h addr word aligned other =
    let key : word_of addr ≡ addr = omega arith in rw (other, key) refl

-- What the copy loop has done from offset `i` on.
record Sent (mem : Mem) (p n i : ℕ) (h h' : Host) : Type 0 where
  console : h'.console ≡ h.console
  finished : h'.finished ≡ h.finished
  bytes :
      (addr : ℕ)
      → byte_at h'.memory addr ≡ (
          if leb (tohost_data + i) addr && ltb addr (tohost_data + sent_size n)
          then mem (p + (addr - tohost_data))
          else byte_at h.memory addr)

Sent-round :
    (mem : Mem) (p n i : ℕ) (h h' : Host)
    → IsBytes mem
    → i % 8 ≡ 0
    → i < n
    → i < 64
    → Sent mem p n
        (i + 8)
        (record h { memory = assign h.memory (tohost_data + i) (load64 mem (p + i)) })
        h'
    → Sent mem p n i h h'
Sent-round mem p n i h h' bytes aligned more room rest = record {
  console = rest.console;
  finished = rest.finished;
  bytes = λ addr.
      ground (arith, rest.bytes addr, load64_byte mem (p + i) (addr % 8) bytes (omega arith));
}

send_words-Sent :
    (left : ℕ) (mem : Mem) (p n i : ℕ) (h : Host)
    → IsBytes mem
    → i % 8 ≡ 0
    → i ≤ 64
    → 64 < i + 8 * left
    → (h' : Host) × (send_words mmio_bus left mem p n i h ≡ some h') × Sent mem p n i h h'
unfolding send_words
send_words-Sent zero mem p n i h bytes aligned le enough = absurd (omega arith)
send_words-Sent (suc left) mem p n i h bytes aligned le enough =
    elim (Bool-cases (ltb i n && ltb i 64)) [
      | inr ends ↦ (
        h,
        rw ends refl,
        record { console = refl; finished = refl; bytes = λ addr. ground arith },
      )
      | inl more ↦
          let word = load64 mem (p + i) in
          let h₁ : Host = record h { memory = assign h.memory (tohost_data + i) word } in
          let stored : mmio_write h (tohost_data + i) word 0xff ≡ some h₁ =
            mmio_write-plain h (tohost_data + i) word (omega arith) (ground arith) in
          let (h', runs, sent) =
            send_words-Sent left mem p n (i + 8) h₁ bytes (omega arith) (ground arith)
              (omega arith) in
          (
            h',
            rw (more, stored, ◌>>=◌) runs,
            Sent-round mem p n i h h' bytes aligned (ground arith) (ground arith) sent,
          )
    ]

-- The data area after a program has sent `n` bytes from `p`: the bytes sent, rounded up to whole words, and behind them what
-- was there.
abbrev pub sent_byte : Mem → ℕ → ℕ → Host → ℕ → ℕ
sent_byte mem p n h addr =
    if ltb addr (tohost_data + sent_size n)
    then mem (p + (addr - tohost_data))
    else byte_at h.memory addr

-- A `write` system call returns after one poll, and the driver prints the data area up to its first NUL, that NUL included:
-- the bytes of the call, rounded up to whole words and cut at 64, and behind them whatever an earlier
-- call left there. It does not end the simulation.
pub syscall-write :
    (polls : ℕ) (mem : Mem) (p n : ℕ) (h : Host)
    → IsBytes mem
    → (h' : Host) × (syscall mmio_bus (suc polls) mem sys_write p n h ≡ some h')
      × (h'.console
          ≡ h.console ++ upto_nul (bytes_from (sent_byte mem p n h) tohost_data tohost_data_size))
      × (h'.finished ≡ h.finished)
unfolding syscall wait mmio_read
syscall-write polls mem p n h bytes =
    let (h₁, sends, sent) = send_words-Sent 9 mem p n 0 h bytes refl (omega arith) (omega arith) in
    let (h₂, asks, prints, same, _) = mmio_write-sys_write h₁ in
    let plain = mmio_write-plain h₂ fromhost 0 refl refl in
    let area =
      bytes_from_ext (byte_at (assign h₁.memory tohost sys_write)) (sent_byte mem p n h) tohost_data
        tohost_data tohost_data_size (λ i hi. ground (arith, sent.bytes (tohost_data + i))) in
    (
      record h₂ { memory = assign h₂.memory fromhost 0 },
      rw (sends, asks, ◌>>=◌) plain,
      prints ∙ ap₂ (λ before chars. before ++ upto_nul chars) sent.console area,
      same ∙ sent.finished,
    )
