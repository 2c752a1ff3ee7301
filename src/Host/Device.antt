-- ===== src/Host/Device.antt =====
-- The callbacks of the two AXI ports of rocket/rocket-main.cpp: plain memory, and the device through which a
-- program prints and ends.
use arc_tests.Prelude.{
  ℕ, zero, suc, ◌+◌, ◌-◌, ◌/◌, ◌^◌, ◌≡◌, arith, Option, none, some, ◌==◌, ◌||◌, ◌&&◌, if◌then◌else◌,
  Bool, true, false, List, [], ◌∷◌, ◌++◌,
}
use arc_tests.Prelude.{codes}
use mathlib.Core.Option
use mathlib.Core.List.{append-nil}
use arc_tests.Axi.Port.{Callbacks, wfi}
use arc_tests.Host.Memory.{Memory, word_of, slot, assign, touch}
use arc_tests.Host.Word.{get_byte}

abbrev pub tohost_addr : ℕ
tohost_addr = 0x60000000

abbrev pub fromhost_addr : ℕ
fromhost_addr = 0x60000040

abbrev pub tohost_data_addr : ℕ
tohost_data_addr = 0x60000080

abbrev pub tohost_data_size : ℕ
tohost_data_size = 64

-- The driver's own line on success.
abbrev pub success_line : List ℕ
success_line = codes "Benchmark run successful!\n"

abbrev pub sys_write : ℕ
sys_write = 64

-- What the closures share: the memory, `finished`, and what has been printed on `std::cout`.
pub record Host : Type 0 where
  pub memory : Memory
  pub finished : Bool
  pub console : List ℕ

-- `mem_port.readFn`.
unfoldable pub mem_read : Host → ℕ → ℕ → ℕ
mem_read h addr word = elim (h.memory (word_of addr)) [ none ↦ wfi | some w ↦ w ]

-- `mem_port.writeFn`.
unfoldable pub mem_write : Host → ℕ → ℕ → ℕ → Option Host
mem_write h addr word mask =
    if mask == 0xff then some (record h { memory = assign h.memory (word_of addr) word }) else none

-- The inner loop, from byte `k` with `left` bytes to go: the bytes printed, and whether the handler returns.
unfoldable pub print_bytes : ℕ → ℕ → ℕ → List ℕ × Bool
print_bytes zero k word = ([], false)
print_bytes (suc left) k word =
    let c = get_byte word k in
    let (more, ended) = print_bytes left (k + 1) word in
    if c == 0 then (c ∷ [], true) else (c ∷ more, ended)

-- The outer loop, from offset `i` with `left` words to go. `memory[…]` makes the words that are missing.
unfoldable pub print_words : ℕ → ℕ → Memory → Memory × List ℕ
print_words zero i mem = (mem, [])
print_words (suc left) i mem =
    let mem' = touch mem (tohost_data_addr + i) in
    let (chars, ended) = print_bytes 8 0 (slot mem (tohost_data_addr + i)) in
    let (mem'', rest) = print_words left (i + 8) mem' in
    if ended then (mem', chars) else (mem'', chars ++ rest)

-- `mmio_port.writeFn`.
unfoldable pub mmio_write : Host → ℕ → ℕ → ℕ → Option Host
mmio_write h addr word mask =
    let stored = record h { memory = assign h.memory (word_of addr) word } in
    let (mem', chars) = print_words (tohost_data_size / 8) 0 stored.memory in
    if mask == 0xff
    then (if addr == tohost_addr
        then (if word == 1
            then some (record stored { finished = true; console = h.console ++ success_line })
            else if word == sys_write
            then some (record stored { memory = mem'; console = h.console ++ chars })
            else some stored)
        else some stored)
    else none

-- `mmio_port.readFn`: only `fromhost` is answered, with all ones.
unfoldable pub mmio_read : Host → ℕ → ℕ → ℕ
mmio_read h addr word = if addr == fromhost_addr then 2 ^ 64 - 1 else word

abbrev pub mem_port : Callbacks Host
mem_port = record { read_fn = some mem_read; write_fn = some mem_write }

abbrev pub mmio_port : Callbacks Host
mmio_port = record { read_fn = some mmio_read; write_fn = some mmio_write }

-- What a write prints.
abbrev pub printed : Host → ℕ → ℕ → List ℕ
printed h addr word =
    if addr == tohost_addr
    then (if word == 1
        then success_line
        else if word == sys_write
        then (print_words (tohost_data_size / 8) 0 (assign h.memory (word_of addr) word)).1
        else [])
    else []

-- A write to the device that is accepted has a full mask; it ends the simulation exactly by a 1 to `tohost`, and prints
-- the success line by that, the data area by `SYS_write` to `tohost`, and nothing otherwise.
pub mmio_write_outcome :
    (h : Host) (addr word mask : ℕ) {h' : Host}
    → mmio_write h addr word mask ≡ some h'
    → (mask ≡ 0xff)
      × (h'.finished ≡ (h.finished || (addr == tohost_addr && word == 1)))
      × (h'.console ≡ h.console ++ printed h addr word)
unfolding mmio_write
mmio_write_outcome h addr word mask e = ground (arith, append-nil h.console)

-- After a write to plain memory, which is accepted exactly with a full mask, a read of any address of the same word gives
-- what was written, and every other read is as before.
mem_read-mem_write :
    (h : Host) (addr word mask other old : ℕ)
    → Option.map (λ (h' : Host). mem_read h' other old) (mem_write h addr word mask) ≡ (
        if mask == 0xff
        then some (if word_of addr == word_of other then word else mem_read h other old)
        else none)
unfolding mem_write mem_read
mem_read-mem_write h addr word mask other old = ground arith
