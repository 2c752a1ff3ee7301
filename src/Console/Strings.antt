-- ===== src/Console/Strings.antt =====
-- What `printstr` of benchmarks/common/syscalls.c makes the driver print.
use arc_tests.Prelude.{
  ℕ, zero, suc, ◌+◌, ◌-◌, ◌%◌, ◌<◌, ◌≤◌, ◌≡◌, ◌≢◌, refl, ap, ◌∙◌, arith, some, false, List, [], ◌∷◌,
  ◌++◌, length,
}
use arc_tests.Host.Memory.{byte_at}
use arc_tests.Host.Device.{Host}
use arc_tests.Host.Console.{
  bytes_from, bytes_from_ext, bytes_from-append, upto_nul, has_nul, upto_nul-append,
}
use arc_tests.Guest.Memory.{Mem, IsBytes}
use arc_tests.Guest.Cstring.{Holds, strlen_lem}
use arc_tests.Guest.Stdio.{printstr}
use arc_tests.Guest.Syscall.{syscall, ◌>>=◌, tohost_data, sys_write}
use arc_tests.Console.Link.{mmio_bus, sent_byte, syscall-write}

-- A text that stands in the memory is what its bytes are.
Holds-bytes :
    (text : List ℕ) (mem : Mem) (p : ℕ) → Holds mem p text → bytes_from mem p (length text) ≡ text
unfolding bytes_from
Holds-bytes [] mem p h = refl
Holds-bytes (c ∷ cs) mem p h = ground (arith, Holds-bytes cs mem (p + 1) h.2)

Holds-has_nul : (text : List ℕ) (mem : Mem) (p : ℕ) → Holds mem p text → has_nul text ≡ false
unfolding has_nul
Holds-has_nul [] mem p h = refl
Holds-has_nul (c ∷ cs) mem p h = ground (arith, Holds-has_nul cs mem (p + 1) h.2)

Holds-end : (text : List ℕ) (mem : Mem) (p : ℕ) → Holds mem p text → mem (p + length text) ≡ 0
Holds-end [] mem p h = ap mem (omega arith) ∙ h
Holds-end (c ∷ cs) mem p h = ap mem (omega arith) ∙ Holds-end cs mem (p + 1) h.2

-- The data area after bytes are sent that none of them ends: those bytes, and what stands behind them.
pub area-bytes :
    (text : List ℕ) (mem : Mem) (p : ℕ) (h : Host)
    → bytes_from mem p (length text) ≡ text
    → has_nul text ≡ false
    → length text ≤ 64
    → upto_nul (bytes_from (sent_byte mem p (length text) h) tohost_data 64)
      ≡ text
        ++ upto_nul (
            bytes_from
              (sent_byte mem p (length text) h)
              (tohost_data + length text)
              (64 - length text))
area-bytes text mem p h stands no_nul le =
    let n = length text in
    let size : 64 ≡ n + (64 - n) = omega arith in
    let front : bytes_from (sent_byte mem p n h) tohost_data n ≡ text =
      bytes_from_ext (sent_byte mem p n h) mem tohost_data p n (λ i lt. ground arith) ∙ stands in
    let rest = bytes_from (sent_byte mem p n h) (tohost_data + n) (64 - n) in
    ap (λ k. upto_nul (bytes_from (sent_byte mem p n h) tohost_data k)) size
    ∙ ap upto_nul (bytes_from-append (sent_byte mem p n h) tohost_data n (64 - n))
    ∙ ap (λ cs. upto_nul (cs ++ rest)) front
    ∙ upto_nul-append text rest
    ∙ rw no_nul refl

upto_nul_first :
    (f : ℕ → ℕ) (addr n : ℕ) → 0 < n → f addr ≡ 0 → upto_nul (bytes_from f addr n) ≡ 0 ∷ []
unfolding upto_nul bytes_from
upto_nul_first f addr zero some_left e = absurd (omega arith)
upto_nul_first f addr (suc n) some_left e = ground arith

printstr-syscall :
    (text : List ℕ) (fuel polls : ℕ) (mem : Mem) (p : ℕ) (h : Host)
    → Holds mem p text
    → length text < fuel
    → printstr mmio_bus fuel polls mem p h ≡ syscall mmio_bus polls mem sys_write p (length text) h
unfolding printstr
printstr-syscall text fuel polls mem p h holds lt =
    rw (strlen_lem text fuel mem p holds lt, ◌>>=◌) refl

module _ (text : List ℕ) (fuel polls : ℕ) (mem : Mem) (p : ℕ) (h : Host) where
  -- `printstr` of a text of fewer than 64 bytes that stands in a memory of bytes returns, and prints the text and a
  -- NUL behind it, if the text's length is no multiple of 8 and there is fuel for `strlen`.
  pub printstr_lem :
      IsBytes mem
      → Holds mem p text
      → length text < fuel
      → length text < 64
      → length text % 8 ≢ 0
      → (h' : Host) × (printstr mmio_bus fuel (suc polls) mem p h ≡ some h')
        × (h'.console ≡ h.console ++ (text ++ 0 ∷ []))
  printstr_lem bytes holds lt short odd =
      let n = length text in
      let (h', runs, prints, _) = syscall-write polls mem p n h bytes in
      let nul : sent_byte mem p n h (tohost_data + n) ≡ 0 =
        ground (arith, Holds-end text mem p holds) in
      (
        h',
        printstr-syscall text fuel (suc polls) mem p h holds lt ∙ runs,
        prints
            ∙ ap (λ cs. h.console ++ cs)
                (area-bytes text mem p h (Holds-bytes text mem p holds)
                    (Holds-has_nul text mem p holds) (omega arith)
                  ∙ ap (λ cs. text ++ cs)
                      (upto_nul_first (sent_byte mem p n h) (tohost_data + n) (64 - n) (omega arith)
                        nul)),
      )

  -- `printstr` of a text that stands in a memory of bytes and whose length is a multiple of 8 below 64 returns, with
  -- fuel for `strlen`, but sends no NUL: it prints the text, and behind it what an earlier call left in the
  -- data area of the driver, up to the first NUL there.
  pub printstr_stale :
      IsBytes mem
      → Holds mem p text
      → length text < fuel
      → length text < 64
      → length text % 8 ≡ 0
      → (h' : Host) × (printstr mmio_bus fuel (suc polls) mem p h ≡ some h')
        × (h'.console
            ≡ h.console
              ++ (text
                  ++ upto_nul (
                      bytes_from
                        (byte_at h.memory)
                        (tohost_data + length text)
                        (64 - length text))))
  printstr_stale bytes holds lt short even =
      let n = length text in
      let (h', runs, prints, _) = syscall-write polls mem p n h bytes in
      let old =
        bytes_from_ext (sent_byte mem p n h) (byte_at h.memory) (tohost_data + n) (tohost_data + n)
          (64 - n) (λ i lt. ground arith) in
      (
        h',
        printstr-syscall text fuel (suc polls) mem p h holds lt ∙ runs,
        prints
            ∙ ap (λ cs. h.console ++ cs)
                (area-bytes text mem p h (Holds-bytes text mem p holds)
                    (Holds-has_nul text mem p holds) (omega arith)
                  ∙ ap (λ cs. text ++ upto_nul cs) old),
      )
