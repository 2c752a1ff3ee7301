-- ===== src/Boom/Tests.antt =====
-- Two designs that only count their evaluations, under the programs of both cores.
use arc_tests.Prelude.{
  ℕ, suc, ◌≡◌, ◌↔◌, refl, true, false, Option, if◌then◌else◌, none, some, List, [], ◌∷◌, codes,
}
use arc_tests.Axi.Port.{no_outputs}
use arc_tests.Host.Loader.{Segment}
use arc_tests.Driver.{Design}
use arc_tests.Driver.Args.{Text, defaults, check_kept, parse_args, parse_loop, flag_of, same_text}
use arc_tests.Driver.Main as Rocket
use arc_tests.Boom.Main.{process, main}
use arc_tests.Boom.Same.{main_same}
use arc_tests.Boom.Ends.{AsksForTooMuch, mains-eq-none_iff}

abbrev counting : List ℕ → Design ℕ
counting name = record {
  name = λ m. name;
  vcd_start = λ file m. m;
  vcd_dump = λ cycle m. m;
  eval = suc;
  get_ports = λ m. m ∷ [];
  set_clock = λ b m. m;
  set_reset = λ b m. m;
  set_mem = λ i m. m;
  get_mem = λ m. no_outputs;
  set_mmio = λ i m. m;
  get_mmio = λ m. no_outputs;
}

abbrev one_word : Segment
one_word = record {
  kind = 1;
  physical_address = 0x80000000;
  memory_size = 8;
  file_size = 4;
  bytes = λ i. 0x73;
}

-- One file is there.
abbrev disk : Text → Option (List Segment)
disk file = if same_text file (codes "a") then some (one_word ∷ []) else none

abbrev line : List Text
line = codes "--trace" ∷ codes "t.vcd" ∷ codes "--vtor" ∷ codes "a" ∷ []

line_read :
    process line defaults
    ≡ some (record defaults {
      run_all = false;
      run_vtor = true;
      vcd_output_file = some (codes "t.vcd");
      kept = codes "a" ∷ [];
    })
unfolding process flag_of same_text
line_read = refl

main_same_example :
    main (counting (codes "vtor")) (counting (codes "arcs")) 0 1 disk line
    ≡ Rocket.main (counting (codes "vtor")) (counting (codes "arcs")) 0 1 disk line
main_same_example = main_same (counting (codes "vtor")) (counting (codes "arcs")) 0 1 disk line

-- A file whose one segment has 4 gigabytes.
abbrev huge : Text → Option (List Segment)
huge file = some (record one_word { memory_size = 0x100000000 } ∷ [])

line_parsed :
    parse_args line
    ≡ some (
      record defaults {
        run_all = false;
        run_vtor = true;
        vcd_output_file = some (codes "t.vcd");
        kept = codes "a" ∷ [];
      },
      codes "a",
    )
unfolding parse_args parse_loop flag_of same_text check_kept
line_parsed = refl

huge-AsksForTooMuch : AsksForTooMuch huge line
huge-AsksForTooMuch = (_, codes "a", _, line_parsed, refl, refl)

mains-eq-none_iff_example :
    ((Rocket.main (counting (codes "vtor")) (counting (codes "arcs")) 0 1 huge line ≡ none)
      ↔ AsksForTooMuch huge line)
    × ((main (counting (codes "vtor")) (counting (codes "arcs")) 0 1 huge line ≡ none)
        ↔ AsksForTooMuch huge line)
mains-eq-none_iff_example =
    mains-eq-none_iff (counting (codes "vtor")) (counting (codes "arcs")) 0 1 huge line
