-- ===== src/Guest/Syscall.antt =====
-- `syscall` of benchmarks/common/syscalls.c, over the bus that its volatile accesses go to.
use arc_tests.Prelude.{ℕ, zero, suc, ◌+◌, Option, none, some, ltb, ◌==◌, ◌&&◌, if◌then◌else◌}
use arc_tests.Guest.Memory.{Mem, load64}

-- 64-bit accesses to devices. `none` is an access that the environment does not survive.
pub record Bus (S : Type 0) : Type 0 where
  pub load : S → ℕ → ℕ
  pub store : S → ℕ → ℕ → Option S

-- Where the linker puts `tohost`, `fromhost` and `tohost_data` (benchmarks/common/test.ld).
abbrev pub tohost : ℕ
tohost = 0x60000000

abbrev pub fromhost : ℕ
fromhost = 0x60000040

abbrev pub tohost_data : ℕ
tohost_data = 0x60000080

abbrev pub tohost_data_size : ℕ
tohost_data_size = 64

abbrev pub sys_write : ℕ
sys_write = 64

infixl 5 ◌>>=◌
abbrev pub ◌>>=◌ {ℓ κ} : {A : Type ℓ} {B : Type κ} → Option A → (A → Option B) → Option B
none >>= k = none
some a >>= k = k a

module _ {S : Type 0} (bus : Bus S) where
  -- `for (int i = 0; i < arg2 && i < TOHOST_DATA_SIZE; i += 8)`, with the rounds that are left.
  unfoldable pub send_words : ℕ → Mem → ℕ → ℕ → ℕ → S → Option S
  send_words zero mem arg1 arg2 i s = none
  send_words (suc left) mem arg1 arg2 i s =
      let rest =
        bus.store s (tohost_data + i) (load64 mem (arg1 + i))
        >>= send_words left mem arg1 arg2 (i + 8) in
      if ltb i arg2 && ltb i tohost_data_size then rest else some s

  -- `while (fromhost == 0);`, with the polls that are left.
  unfoldable pub wait : ℕ → S → Option S
  wait zero s = none
  wait (suc polls) s =
      let again = wait polls s in if bus.load s fromhost == 0 then again else some s

  -- The loop of `send_words` runs eight rounds at most and tests once more.
  unfoldable pub syscall : ℕ → Mem → ℕ → ℕ → ℕ → S → Option S
  syscall polls mem which arg1 arg2 s = do
    sent ← if which == sys_write then send_words 9 mem arg1 arg2 0 s else some s
    asked ← bus.store sent tohost which
    answered ← wait polls asked
    bus.store answered fromhost 0
