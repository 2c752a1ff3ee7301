-- ===== src/Driver/Args/Tests.antt =====
-- Command lines and names of trace files.
use arc_tests.Prelude.{◌≡◌, refl, none, some, [], ◌∷◌, ◌++◌, codes, arith}
use arc_tests.Driver.Args.{defaults, flag_of, same_text, plain, parse_args}
use arc_tests.Driver.Args.Laws.{only_arcs, trace, write, ask, parse_args-write}
use arc_tests.Driver.Trace.{extend_file, extend_file_lem}

dhrystone-plain : flag_of (codes "dhrystone") ≡ plain
unfolding flag_of same_text
dhrystone-plain = refl

parse_args-write_example :
    (parse_args (write (only_arcs ∷ []) (codes "dhrystone" ∷ write (trace (codes "a.vcd") ∷ []) []))
      ≡ some (
        record (ask defaults (only_arcs ∷ trace (codes "a.vcd") ∷ [])) {
          kept = codes "dhrystone" ∷ [];
        },
        codes "dhrystone",
      ))
    × (parse_args (
          write
            (only_arcs ∷ [])
            (codes "dhrystone" ∷ write (trace (codes "a.vcd") ∷ []) (codes "--trace" ∷ [])))
        ≡ none)
    × (parse_args (write (only_arcs ∷ []) []) ≡ none)
parse_args-write_example =
    parse_args-write (only_arcs ∷ []) (trace (codes "a.vcd") ∷ []) (codes "dhrystone")
      dhrystone-plain

extend_file_lem_example :
    (extend_file (codes "out/a" ++ b'.' ∷ codes "vcd") (codes "arcs")
      ≡ some (codes "out/a" ++ b'-' ∷ (codes "arcs" ++ b'.' ∷ codes "vcd")))
    × (extend_file (codes "vcd") (codes "arcs") ≡ none)
extend_file_lem_example =
    extend_file_lem (codes "out/a") (codes "vcd") (codes "arcs")
      (ground arith, (ground arith, (ground arith, tt)))
