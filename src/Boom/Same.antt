-- ===== src/Boom/Same.antt =====
-- The programs of boom/boom-main.cpp and rocket/rocket-main.cpp, on one and the same pair of models.
use arc_tests.Prelude.{
  ℕ, zero, suc, ◌+◌, ◌≡◌, refl, ap, ◌∙◌, arith, true, false, ◌||◌, Option, none, some, Option-cases,
  inl, inr, if◌then◌else◌, List, [], ◌∷◌, ◌++◌, ltb,
}
use arc_tests.Host.Memory.{Memory}
use arc_tests.Host.Loader.{Segment, load}
use arc_tests.Host.Device as Device
use arc_tests.Host.Device.{Host}
use arc_tests.Axi.Cycle.{see}
use arc_tests.Axi.Port as RocketPort
use arc_tests.Axi.Port.{AxiPort, idle}
use arc_tests.Driver.{Design}
use arc_tests.Driver.Args.{Text, Options, defaults, parse_loop, check_kept, parse_args}
use arc_tests.Driver.Compare as Compare
use arc_tests.Driver.Compare.{Comparing, each, first_mem, first_mmio, reset_rounds}
use arc_tests.Driver.Dispatch.{Object, vtor, arcs, either}
use arc_tests.Driver.Lockstep.{Outcome-cases}
use arc_tests.Driver.Loop.{Sim, Exit, returned, feed, drain, judge, round, simulate}
use arc_tests.Driver.Main as Rocket
use arc_tests.Driver.Main.{allocate, start_trace, run_models, run_program}
use arc_tests.Boom.Port.{update_a, update_a_same, update_b_same}
use arc_tests.Boom.Host.{read_elf_same, mem_port, mmio_port, mem_port_same, mmio_port_same}
use arc_tests.Boom.Model.{
  eval, set_reset, set_mem, get_mem, set_mmio, get_mmio, clock, clock_same, vcd_start_same,
}
use arc_tests.Boom.Main.{
  process, reset_loop, before_eval, after_eval, turn, loop, new_model, on_memory, on_file,
  with_kept, main,
}

process_same : (args : List Text) (o : Options) → process args o ≡ parse_loop args false o
unfolding process parse_loop
process_same [] o = refl
process_same (arg ∷ []) o = ground arith
process_same (arg ∷ next ∷ args) o = ground (
  arith,
  process_same (next ∷ args) (record o { run_all = false; run_arcs = true }),
  process_same (next ∷ args) (record o { run_all = false; run_vtor = true }),
  process_same args (record o { vcd_output_file = some next }),
  process_same (next ∷ args) (record o { kept = o.kept ++ (arg ∷ []) }),
)

mem_update_a :
    (h : Host) (p : AxiPort) → update_a mem_port h p ≡ RocketPort.update_a Device.mem_port h p
mem_update_a h p =
    update_a_same mem_port h p ∙ ap (λ fns. RocketPort.update_a fns h p) mem_port_same

mmio_update_a :
    (h : Host) (p : AxiPort) → update_a mmio_port h p ≡ RocketPort.update_a Device.mmio_port h p
mmio_update_a h p =
    update_a_same mmio_port h p ∙ ap (λ fns. RocketPort.update_a fns h p) mmio_port_same

module _ {M : Type 0} (d : Design M) where
  reset_loop_same : (left i : ℕ) (c : Comparing M) → reset_loop d left i c ≡ reset_rounds d left i c
  unfolding reset_loop reset_rounds set_reset each
  reset_loop_same zero i c = refl
  reset_loop_same (suc left) i c =
      let held = each d (d.set_reset (ltb i 100)) c in
      reset_loop_same left (i + 1) (clock d held)
      ∙ ap (reset_rounds d left (i + 1)) (clock_same d held)

  get_mem_same : (c : Comparing M) → get_mem d c ≡ first_mem d c.models
  unfolding get_mem first_mem
  get_mem_same c = ground arith

  get_mmio_same : (c : Comparing M) → get_mmio d c ≡ first_mmio d c.models
  unfolding get_mmio first_mmio
  get_mmio_same c = ground arith

  before_eval_same : (s : Sim M) → before_eval d s ≡ feed d s
  unfolding before_eval feed set_mem set_mmio eval each
  before_eval_same s =
      let seen = see (first_mem d s.model.models) s.mem in
      let first : update_a mem_port s.host (see (get_mem d s.model) s.mem)
          ≡ RocketPort.update_a Device.mem_port s.host seen =
        ap (λ out. update_a mem_port s.host (see out s.mem)) (get_mem_same s.model)
        ∙ mem_update_a s.host seen in
      elim (Option-cases (RocketPort.update_a Device.mem_port s.host seen)) [
        | inl failed ↦ ground (arith, first, failed)
        | inr ((host₁, mem₁), one) ↦
            let model₁ = each d (d.set_mem mem₁.inputs) s.model in
            let seen₁ = see (first_mmio d model₁.models) s.mmio in
            let second : update_a mmio_port host₁ (see (get_mmio d model₁) s.mmio)
                ≡ RocketPort.update_a Device.mmio_port host₁ seen₁ =
              ap (λ out. update_a mmio_port host₁ (see out s.mmio)) (get_mmio_same model₁)
              ∙ mmio_update_a host₁ seen₁ in
            elim (Option-cases (RocketPort.update_a Device.mmio_port host₁ seen₁)) [
              | inl failed ↦ ground (arith, first, one, second, failed)
              | inr ((host₂, mmio₁), two) ↦ ground (arith, first, one, second, two)
            ]
      ]

  after_eval_same :
      (s : Sim M)
      → after_eval d s ≡ (let t = drain d s in record t { model = Compare.clock d t.model })
  unfolding after_eval drain set_mem set_mmio each
  after_eval_same s =
      let seen = see (first_mem d s.model.models) s.mem in
      let mem₂ = RocketPort.update_b seen in
      let model₁ = each d (d.set_mem mem₂.inputs) s.model in
      let seen₁ = see (first_mmio d model₁.models) s.mmio in
      let model₂ = each d (d.set_mmio (RocketPort.update_b seen₁).inputs) model₁ in
      rw
        (
          get_mem_same s.model,
          update_b_same seen,
          get_mmio_same model₁,
          update_b_same seen₁,
          clock_same d model₂,
        )
        refl

  turn_same : (s : Sim M) → turn d s ≡ round d s
  unfolding turn round judge
  turn_same s = elim (Option-cases (feed d s)) [
    | inl failed ↦ ground (arith, failed, before_eval_same s)
    | inr (s₁, one) ↦ ground (arith, one, before_eval_same s, after_eval_same s₁)
  ]

  loop_same : (left : ℕ) (s : Sim M) → loop d left s ≡ simulate d left s
  unfolding loop simulate
  loop_same zero s = refl
  loop_same (suc left) s = elim (Outcome-cases (round d s)) [
    | inl (e, one) ↦ ground (arith, one, turn_same s)
    | inr (t, one) ↦ ground (arith, one, turn_same s, loop_same left t)
  ]

module _ {V A : Type 0} (dv : Design V) (da : Design A) (new_vtor : V) (new_arcs : A) where
  new_model_same :
      (o : Options)
      → new_model dv da new_vtor new_arcs o
        ≡ start_trace dv da o.vcd_output_file
            (record { models = allocate new_vtor new_arcs o; cycle = 0; num_mismatches = 0 })
  unfolding new_model allocate start_trace
  new_model_same o =
      let both =
        (if o.run_all || o.run_vtor then vtor new_vtor ∷ [] else [])
        ++ (if o.run_all || o.run_arcs then arcs new_arcs ∷ [] else []) in
      elim (Option-cases o.vcd_output_file) [
        | inl no_file ↦ ground (arith, no_file)
        | inr (file, one) ↦ ground (
          arith,
          one,
          vcd_start_same (either dv da) file
              (record { models = both; cycle = 0; num_mismatches = 0 }),
        )
      ]

  on_memory_same :
      (o : Options) (memory : Memory)
      → on_memory dv da new_vtor new_arcs o memory ≡ run_program dv da new_vtor new_arcs o memory
  unfolding on_memory run_program run_models
  on_memory_same o memory =
      let unused : Comparing (Object V A) = record {
        models = allocate new_vtor new_arcs o;
        cycle = 0;
        num_mismatches = 0;
      } in
      elim (Option-cases (start_trace dv da o.vcd_output_file unused)) [
        | inl failed ↦ ground (arith, failed, new_model_same o)
        | inr (c, one) ↦
            let d = either dv da in
            let host : Host = record { memory = memory; finished = false; console = [] } in
            let from : Comparing (Object V A) → Sim (Object V A) = λ model. record {
              model = model;
              mem = idle;
              mmio = idle;
              host = host;
              num_bad_cycles = 0;
            } in
            let looped =
              loop_same d 1000000 (from (reset_loop d 1000 0 c))
              ∙ ap (λ model. simulate d 1000000 (from model)) (reset_loop_same d 1000 0 c) in
            ground (arith, one, new_model_same o, looped)
      ]

module _ {V A : Type 0} (dv : Design V) (da : Design A) (new_vtor : V) (new_arcs : A)
    (elf_load : Text → Option (List Segment)) where
  -- What the Rocket core's program does with its one argument.
  abbrev rocket_file : Options → Text → Option Exit
  rocket_file o binary = elim (elf_load binary) [
    | none ↦ some (returned 1)
    | some segments ↦ elim (load Rocket.empty_memory segments) [
      | none ↦ none
      | some memory ↦ some (run_program dv da new_vtor new_arcs o memory)
    ]
  ]

  on_file_same :
      (o : Options) (binary : Text)
      → on_file dv da new_vtor new_arcs elf_load o binary ≡ rocket_file o binary
  unfolding on_file
  on_file_same o binary = elim (Option-cases (elf_load binary)) [
    | inl closed ↦ ground (arith, closed)
    | inr (segments, one) ↦ elim (Option-cases (load Rocket.empty_memory segments)) [
      | inl stop ↦ ground (arith, one, stop, read_elf_same segments Rocket.empty_memory)
      | inr (memory, two) ↦ ground (
        arith,
        one,
        two,
        read_elf_same segments Rocket.empty_memory,
        on_memory_same dv da new_vtor new_arcs o memory,
      )
    ]
  ]

  with_kept_same :
      (o : Options) (kept : List Text)
      → with_kept dv da new_vtor new_arcs elf_load o kept ≡ (elim (check_kept o kept) [
        | none ↦ some (returned 1)
        | some (o', binary) ↦ rocket_file o' binary
      ])
  unfolding with_kept check_kept
  with_kept_same o [] = refl
  with_kept_same o (binary ∷ []) = on_file_same o binary
  with_kept_same o (binary ∷ arg ∷ args) = refl

  -- On any command line, any two designs and any files, the program of the BOOM core ends as the program of the Rocket core
  -- does: with the same return value, with an abort, or in a loader that never ends.
  pub main_same :
      (args : List Text)
      → main dv da new_vtor new_arcs elf_load args
        ≡ Rocket.main dv da new_vtor new_arcs elf_load args
  unfolding main Rocket.main parse_args
  main_same args = elim (Option-cases (parse_loop args false defaults)) [
    | inl failed ↦ ground (arith, failed, process_same args defaults)
    | inr (o, one) ↦ ground (arith, one, process_same args defaults, with_kept_same o o.kept)
  ]
