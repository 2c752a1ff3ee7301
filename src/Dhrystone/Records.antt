-- ===== src/Dhrystone/Records.antt =====
-- The procedures of benchmarks/dhrystone/dhrystone_main.c on records.
use arc_tests.Prelude.{Option, none, some, if◌then◌else◌}
use arc_tests.Guest.Syscall.{◌>>=◌}
use arc_tests.Dhrystone.{ident_1, enum_eq, Object, RecPointer, Globals, fetch, put}
use arc_tests.Dhrystone.Scalars.{proc_6, proc_7}

-- `Ptr_Ref_Par` points to the field `Ptr_Comp` of `o`. `none` is an access through `Null`.
unfoldable pub proc_3 : Object → Globals → Option Globals
proc_3 o g =
    let g₁ : Globals = elim g.ptr_glob [
      | none ↦ g
      | some glob ↦ put o (record (fetch g o) { ptr_comp = (fetch g glob).ptr_comp }) g
    ] in
    g₁.ptr_glob >>= λ glob.
    some (put glob (record (fetch g₁ glob) { int_comp = proc_7 10 g₁.int_glob }) g₁)

-- The record that `Next_Record` points to is of the kind `Ident_1`.
unfoldable pub proc_1_then : Object → Object → Globals → Option Globals
proc_1_then val next g =
    let g₁ = put next (record (fetch g next) { int_comp = 6 }) g in
    let e = proc_6 g₁.int_glob (fetch g₁ val).enum_comp in
    let g₂ = put next (record (fetch g₁ next) { enum_comp = e }) g₁ in
    g₂.ptr_glob >>= λ glob.
    let g₃ = put next (record (fetch g₂ next) { ptr_comp = (fetch g₂ glob).ptr_comp }) g₂ in
    some (put next (record (fetch g₃ next) { int_comp = proc_7 (fetch g₃ next).int_comp 10 }) g₃)

-- It is not.
unfoldable pub proc_1_else : Object → Globals → Option Globals
proc_1_else val g = (fetch g val).ptr_comp >>= λ other. some (put val (fetch g other) g)

-- `Proc_1` up to its test: `structassign` and the assignments behind it.
unfoldable pub proc_1_copy : Object → Object → Object → Globals → Globals
proc_1_copy val next glob g =
    let g₁ = put next (fetch g glob) g in
    let g₂ = put val (record (fetch g₁ val) { int_comp = 5 }) g₁ in
    let g₃ = put next (record (fetch g₂ next) { int_comp = (fetch g₂ val).int_comp }) g₂ in
    put next (record (fetch g₃ next) { ptr_comp = (fetch g₃ val).ptr_comp }) g₃

unfoldable pub proc_1 : RecPointer → Globals → Option Globals
proc_1 ptr_val_par g = do
  val ← ptr_val_par
  next ← (fetch g val).ptr_comp
  glob ← g.ptr_glob
  g₁ ← proc_3 next (proc_1_copy val next glob g)
  if enum_eq (fetch g₁ next).discr ident_1 then proc_1_then val next g₁ else proc_1_else val g₁
