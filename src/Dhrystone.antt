-- ===== src/Dhrystone.antt =====
-- The Dhrystone benchmark: its types and its global variables (benchmarks/dhrystone).
pub mod Scalars
pub mod Records
pub mod Run
pub mod Final
pub mod Laws
pub mod Measure
pub mod Tests
use arc_tests.Prelude.{
  ℕ, ◌+◌, ◌^◌, ◌%◌, ◌*◌, Option, Bool, List, ◌==◌, ltb, u32, ◌&&◌, if◌then◌else◌,
}

pub data Enumeration : Type 0 where
  ident_1 : Enumeration
  ident_2 : Enumeration
  ident_3 : Enumeration
  ident_4 : Enumeration
  ident_5 : Enumeration

-- The two records that `main` allocates, first the one of `Next_Ptr_Glob`.
pub data Object : Type 0 where
  next_object : Object
  glob_object : Object

-- `none` is `Null`.
abbrev pub RecPointer : Type 0
RecPointer = Option Object

-- A `Str_30`, as the text in front of its NUL.
abbrev pub Str30 : Type 0
Str30 = List ℕ

-- `Rec_Type`, with the variant `var_1`, the only one in use.
pub record RecType : Type 0 where
  pub ptr_comp : RecPointer
  pub discr : Enumeration
  pub enum_comp : Enumeration
  pub int_comp : ℕ
  pub str_comp : Str30

-- The records in memory.
pub record Heap : Type 0 where
  pub next_record : RecType
  pub glob_record : RecType

-- The global variables. An `int` is given by its 32 bits; what overflows wraps, as on the machine.
pub record Globals : Type 0 where
  pub ptr_glob : RecPointer
  pub next_ptr_glob : RecPointer
  pub int_glob : ℕ
  pub bool_glob : ℕ
  pub ch_1_glob : ℕ
  pub ch_2_glob : ℕ
  pub arr_1_glob : ℕ → ℕ
  pub arr_2_glob : ℕ → ℕ → ℕ
  pub records : Heap

-- The value of an enumerator.
abbrev pub enum_number : Enumeration → ℕ
enum_number ident_1 = 0
enum_number ident_2 = 1
enum_number ident_3 = 2
enum_number ident_4 = 3
enum_number ident_5 = 4

abbrev pub enum_eq : Enumeration → Enumeration → Bool
enum_eq a b = enum_number a == enum_number b

-- The signed order of two 32-bit numbers.
abbrev pub slt : ℕ → ℕ → Bool
slt a b = ltb (u32 (a + 2 ^ 31)) (u32 (b + 2 ^ 31))

-- What a pointer that is not `Null` points to.
abbrev pub fetch : Globals → Object → RecType
fetch g next_object = g.records.next_record
fetch g glob_object = g.records.glob_record

-- An assignment to it.
abbrev pub put : Object → RecType → Globals → Globals
put next_object r g = record g { records = record g.records { next_record = r } }
put glob_object r g = record g { records = record g.records { glob_record = r } }
