-- ===== src/Driver/Main.antt =====
-- `main` of rocket/rocket-main.cpp, over the two models that `makeVerilatorModel` and `makeArcilatorModel` make, and
-- over ELFIO's view of the file system.
use arc_tests.Prelude.{ℕ, false, ◌||◌, Option, none, some, if◌then◌else◌, List, [], ◌∷◌, ◌++◌}
use arc_tests.Host.Memory.{Memory}
use arc_tests.Host.Loader.{Segment, load}
use arc_tests.Axi.Port.{idle}
use arc_tests.Driver.{Design}
use arc_tests.Driver.Args.{Text, Options, parse_args}
use arc_tests.Driver.Compare.{Comparing, reset_rounds}
use arc_tests.Driver.Dispatch.{Object, vtor, arcs, either}
use arc_tests.Driver.Loop.{Exit, returned, aborted, simulate}
use arc_tests.Driver.Trace.{vcd_start}

abbrev pub empty_memory : Memory
empty_memory key = none

-- The rounds of the simulation loop.
abbrev pub max_rounds : ℕ
max_rounds = 1000000

module _ {V A : Type 0} (new_vtor : V) (new_arcs : A) where
  -- "Allocate the simulation models."
  unfoldable pub allocate : Options → List (Object V A)
  allocate o =
      let one = if o.run_all || o.run_vtor then vtor new_vtor ∷ [] else [] in
      let two = if o.run_all || o.run_arcs then arcs new_arcs ∷ [] else [] in one ++ two

module _ {V A : Type 0} (dv : Design V) (da : Design A) where
  unfoldable pub start_trace :
      Option Text → Comparing (Object V A) → Option (Comparing (Object V A))
  start_trace none c = some c
  start_trace (some file) c = vcd_start (either dv da) file c

  -- From "Model initialization and reset" on.
  unfoldable pub run_models : Memory → Comparing (Object V A) → Exit
  run_models memory c = simulate (either dv da) max_rounds (record {
    model = reset_rounds (either dv da) 1000 0 c;
    mem = idle;
    mmio = idle;
    host = record { memory = memory; finished = false; console = [] };
    num_bad_cycles = 0;
  })

module _ {V A : Type 0} (dv : Design V) (da : Design A) (new_vtor : V) (new_arcs : A) where
  -- Behind the arguments. An exception that nobody catches aborts.
  unfoldable pub run_program : Options → Memory → Exit
  run_program o memory =
      let fresh : Comparing (Object V A) = record {
        models = allocate new_vtor new_arcs o;
        cycle = 0;
        num_mismatches = 0;
      } in
      elim (start_trace dv da o.vcd_output_file fresh) [
        | none ↦ aborted
        | some c ↦ run_models dv da memory c
      ]

module _ {V A : Type 0} (dv : Design V) (da : Design A) (new_vtor : V) (new_arcs : A)
    (elf_load : Text → Option (List Segment)) where
  -- `argv` without its first element. `none` is a loader that never ends, at a segment of 2 ^ 32 bytes or
  -- more. `elf_load` gives the segments of a file that ELFIO can open.
  unfoldable pub main : List Text → Option Exit
  main args = elim (parse_args args) [
    | none ↦ some (returned 1)
    | some (o, binary) ↦ elim (elf_load binary) [
      | none ↦ some (returned 1)
      | some segments ↦ elim (load empty_memory segments) [
        | none ↦ none
        | some memory ↦ some (run_program dv da new_vtor new_arcs o memory)
      ]
    ]
  ]
