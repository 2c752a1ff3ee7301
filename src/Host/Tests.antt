-- ===== src/Host/Tests.antt =====
-- A small program loaded and a line printed, and the theorems at those inputs.
use arc_tests.Prelude.{
  ℕ, ◌≡◌, refl, true, false, none, some, List, [], ◌∷◌, arith, ◌==◌, if◌then◌else◌,
}
use arc_tests.Host.Word.{set_byte}
use arc_tests.Host.Memory.{Memory, IsWords, byte_at}
use arc_tests.Host.Loader.{Segment, AllFit, load, image, byte_at-load}
use arc_tests.Host.Device.{Host, mmio_write, success_line}

set_byte_runs : set_byte 0x1122334455667788 2 0xab ≡ 0x1122334455ab7788
unfolding set_byte
set_byte_runs = refl

abbrev empty : Memory
empty key = none

empty-IsWords : IsWords empty
empty-IsWords key = omega arith

-- Two bytes of a file, and a zeroed one behind them.
abbrev program : List Segment
program =
    record {
      kind = 1;
      physical_address = 0x80000003;
      memory_size = 3;
      file_size = 2;
      bytes = λ i. if i == 0 then 7 else 9;
    }
    ∷ []

program-AllFit : AllFit program
program-AllFit =
    (record { counted = omega arith; placed = omega arith; are_bytes = λ i. ground arith }, tt)

byte_at-load_example :
    (mem' : Memory) × (load empty program ≡ some mem')
    × IsWords mem'
    × ((addr : ℕ) → byte_at mem' addr ≡ image program (byte_at empty) addr)
byte_at-load_example = byte_at-load program empty program-AllFit empty-IsWords

image_runs : image program (byte_at empty) 0x80000004 ≡ 9
unfolding image
image_runs = refl

abbrev idle : Host
idle = record { memory = empty; finished = false; console = [] }

abbrev ended : Host
ended = record {
  memory = λ key. if 0x60000000 == key then some 1 else none;
  finished = true;
  console = success_line;
}

ends : mmio_write idle 0x60000000 1 0xff ≡ some ended
unfolding mmio_write
ends = refl
