-- ===== src/Guest/Stdio.antt =====
-- How a benchmark prints and ends: `printstr`, `putchar`, `exit`, `abort` and `handle_trap` of
-- benchmarks/common/syscalls.c.
use arc_tests.Prelude.{
  ℕ, ◌+◌, ◌-◌, ◌*◌, ◌^◌, Option, some, ltb, ◌==◌, ◌||◌, if◌then◌else◌, u8, u64, bit_or,
}
use mathlib.Core.Option
use arc_tests.Guest.Memory.{Mem, poke}
use arc_tests.Guest.Strings.{strlen}
use arc_tests.Guest.Syscall.{Bus, syscall, ◌>>=◌, sys_write, tohost, tohost_data_size}

-- What `putchar` keeps: its buffer is part of the memory, from `buf` on.
pub record Output (S : Type 0) : Type 0 where
  pub mem : Mem
  pub buflen : ℕ
  pub device : S

-- `uintptr_t` of an `int`: the sign is extended.
abbrev pub sign_extend : ℕ → ℕ
sign_extend code = if ltb code (2 ^ 31) then code else code + (2 ^ 64 - 2 ^ 32)

module _ {S : Type 0} (bus : Bus S) where
  -- `syscall(SYS_write, 1, (uintptr_t)s, strlen(s))`.
  unfoldable pub printstr : ℕ → ℕ → Mem → ℕ → S → Option S
  printstr fuel polls mem s device = do
    n ← strlen fuel mem s
    syscall bus polls mem sys_write s n device

  -- `buf` is the address of the buffer. `ch` is an `int`; a `char` of it is kept.
  unfoldable pub putchar : ℕ → ℕ → Output S → ℕ → Option (Output S)
  putchar polls buf out ch =
      let mem' = poke out.mem (buf + out.buflen) (u8 ch) in
      let len' = out.buflen + 1 in
      if ch == b'\n' || len' == tohost_data_size
      then Option.map (λ device'. record out { mem = mem'; buflen = 0; device = device' })
          (syscall bus polls mem' sys_write buf len' out.device)
      else some (record out { mem = mem'; buflen = len' })

  -- `tohost = (code << 1) | 1;` and then the loop that never ends: the state that it leaves.
  unfoldable pub tohost_exit : ℕ → S → Option S
  tohost_exit code device = bus.store device tohost (bit_or (u64 (code * 2)) 1)

  -- `code` is an `int`, given by its 32 bits.
  unfoldable pub exit : ℕ → S → Option S
  exit code device = tohost_exit (sign_extend code) device

  -- `SIGABRT` is 6.
  unfoldable pub abort : S → Option S
  abort device = exit (128 + 6) device

  unfoldable pub handle_trap : S → Option S
  handle_trap device = tohost_exit 1337 device
