-- ===== src/Boom/Main.antt =====
-- `main` of boom/boom-main.cpp, over what `makeVerilatorModel` and `makeArcilatorModel` make and over ELFIO's view of the
-- file system.
use arc_tests.Prelude.{
  ℕ, zero, suc, ◌+◌, true, false, ◌||◌, Option, none, some, if◌then◌else◌, List, [], ◌∷◌, ◌++◌, ltb,
  leb,
}
use arc_tests.Host.Memory.{Memory}
use arc_tests.Host.Loader.{Segment}
use arc_tests.Axi.Port.{idle}
use arc_tests.Driver.{Design}
use arc_tests.Driver.Args.{
  Text, Options, defaults, arcs_flag, vtor_flag, trace_flag, plain, flag_of,
}
use arc_tests.Driver.Compare.{Comparing}
use arc_tests.Driver.Dispatch.{Object, vtor, arcs, either}
use arc_tests.Driver.Loop.{Sim, Exit, returned, aborted, Outcome, go_on, ends}
use arc_tests.Boom.Port.{update_a, update_b}
use arc_tests.Boom.Host.{read_elf, mem_port, mmio_port}
use arc_tests.Boom.Model.{vcd_start, eval, set_reset, set_mem, get_mem, set_mmio, get_mmio, clock}

-- "Process CLI arguments": an argument that is no flag is kept, and `--trace` takes the next one along, which `none`
-- says is missing. The strings of the flags are those of `flag_of`.
unfoldable pub process : List Text → Options → Option Options
process [] o = some o
process (arg ∷ []) o = elim (flag_of arg) [
  | arcs_flag ↦ some (record o { run_all = false; run_arcs = true })
  | vtor_flag ↦ some (record o { run_all = false; run_vtor = true })
  | trace_flag ↦ none
  | plain ↦ some (record o { kept = o.kept ++ (arg ∷ []) })
]
process (arg ∷ next ∷ args) o = elim (flag_of arg) [
  | arcs_flag ↦ process (next ∷ args) (record o { run_all = false; run_arcs = true })
  | vtor_flag ↦ process (next ∷ args) (record o { run_all = false; run_vtor = true })
  | trace_flag ↦ process args (record o { vcd_output_file = some next })
  | plain ↦ process (next ∷ args) (record o { kept = o.kept ++ (arg ∷ []) })
]

module _ {M : Type 0} (d : Design M) where
  -- "Model initialization and reset", with the rounds that are left.
  unfoldable pub reset_loop : ℕ → ℕ → Comparing M → Comparing M
  reset_loop zero i c = c
  reset_loop (suc left) i c = reset_loop left (i + 1) (clock d (set_reset d (ltb i 100) c))

  -- The part of a round in front of `model.eval()`, and that call. `none` is an assertion.
  unfoldable pub before_eval : Sim M → Option (Sim M)
  before_eval s = elim (update_a mem_port s.host (record s.mem { outputs = get_mem d s.model })) [
    | none ↦ none
    | some (host₁, mem₁) ↦
        let model₁ = set_mem d mem₁.inputs s.model in
        elim (update_a mmio_port host₁ (record s.mmio { outputs = get_mmio d model₁ })) [
          | none ↦ none
          | some (host₂, mmio₁) ↦ some (record s {
            model = eval d (set_mmio d mmio₁.inputs model₁);
            mem = mem₁;
            mmio = mmio₁;
            host = host₂;
          })
        ]
  ]

  -- The part behind it, up to `model.clock()`.
  unfoldable pub after_eval : Sim M → Sim M
  after_eval s =
      let mem = update_b (record s.mem { outputs = get_mem d s.model }) in
      let model₁ = set_mem d mem.inputs s.model in
      let mmio = update_b (record s.mmio { outputs = get_mmio d model₁ }) in
      let model₂ = set_mmio d mmio.inputs model₁ in
      record s { model = clock d model₂; mem = mem; mmio = mmio }

  unfoldable pub turn : Sim M → Outcome M
  turn s = elim (before_eval s) [
    | none ↦ ends aborted
    | some s₁ ↦
        let t = after_eval s₁ in
        let bad = record t { num_bad_cycles = t.num_bad_cycles + 1 } in
        if t.host.finished
        then ends (returned 0)
        else if ltb 0 t.model.num_mismatches
        then (if leb 3 bad.num_bad_cycles then ends (returned 1) else go_on bad)
        else go_on t
  ]

  -- "Simulation loop", with the rounds that are left.
  unfoldable pub loop : ℕ → Sim M → Exit
  loop zero s = returned 0
  loop (suc left) s = elim (turn s) [ ends e ↦ e | go_on t ↦ loop left t ]

module _ {V A : Type 0} (dv : Design V) (da : Design A) (new_vtor : V) (new_arcs : A) where
  -- "Allocate the simulation models." `none` is an exception.
  unfoldable pub new_model : Options → Option (Comparing (Object V A))
  new_model o =
      let none_yet : List (Object V A) = [] in
      let first = if o.run_all || o.run_vtor then none_yet ++ (vtor new_vtor ∷ []) else none_yet in
      let both = if o.run_all || o.run_arcs then first ++ (arcs new_arcs ∷ []) else first in
      let model : Comparing (Object V A) = record {
        models = both;
        cycle = 0;
        num_mismatches = 0;
      } in
      elim o.vcd_output_file [ none ↦ some model | some file ↦ vcd_start (either dv da) file model ]

  -- The program on a memory that is loaded.
  unfoldable pub on_memory : Options → Memory → Exit
  on_memory o memory = elim (new_model o) [
    | none ↦ aborted
    | some model ↦ loop (either dv da) 1000000 (record {
      model = reset_loop (either dv da) 1000 0 model;
      mem = idle;
      mmio = idle;
      host = record { memory = memory; finished = false; console = [] };
      num_bad_cycles = 0;
    })
  ]

module _ {V A : Type 0} (dv : Design V) (da : Design A) (new_vtor : V) (new_arcs : A)
    (elf_load : Text → Option (List Segment)) where
  -- On the one argument that is left over.
  unfoldable pub on_file : Options → Text → Option Exit
  on_file o binary = elim (elf_load binary) [
    | none ↦ some (returned 1)
    | some segments ↦ elim (read_elf segments (λ key. none)) [
      | none ↦ none
      | some memory ↦ some (on_memory dv da new_vtor new_arcs o memory)
    ]
  ]

  -- `argc != 2`, behind the loop over the arguments.
  unfoldable pub with_kept : Options → List Text → Option Exit
  with_kept o [] = some (returned 1)
  with_kept o (binary ∷ []) = on_file o binary
  with_kept o (binary ∷ arg ∷ args) = some (returned 1)

  -- `argv` without its first element. `none` is a loader that never ends.
  unfoldable pub main : List Text → Option Exit
  main args = elim (process args defaults) [
    | none ↦ some (returned 1)
    | some o ↦ with_kept o o.kept
  ]
