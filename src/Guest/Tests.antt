-- ===== src/Guest/Tests.antt =====
-- The string functions of a benchmark's runtime on small texts.
use arc_tests.Prelude.{
  ◌%◌, ℕ, ◌-◌, ◌≡◌, ◌↔◌, inr, refl, some, List, [], ◌∷◌, arith, ◌==◌, if◌then◌else◌,
}
use arc_tests.Prelude.Int.{pos, negsuc}
use arc_tests.Guest.Memory.{Mem, IsBytes}
use arc_tests.Guest.Strings.{strcmp}
use arc_tests.Guest.Cstring.{difference, strcmp_lem}
use mathlib.Core.List.{reverse}
use arc_tests.Prelude.{◌++◌, map, length}
use arc_tests.Guest.Number.{printnum, digit_char}
use arc_tests.Prelude.{replicate}
use arc_tests.Prelude.Int.{pos_part}
use arc_tests.Guest.Number.Digits.{read, IsNumeral, printnum_lem}
use arc_tests.Guest.Copy.{memcpy, memset}
use arc_tests.Guest.Copy.Fill.{Filled, memset-Filled}
use arc_tests.Guest.Copy.Block.{Copied, memcpy-Copied}

-- "ab" at 16 and "b" at 32.
abbrev texts : Mem
texts p = if p == 16 then 97 else if p == 17 then 98 else if p == 32 then 98 else 0

abbrev ab : List ℕ
ab = 97 ∷ 98 ∷ []

abbrev b : List ℕ
b = 98 ∷ []

texts-IsBytes : IsBytes texts
texts-IsBytes p = ground arith

strcmp_lem_example :
    (strcmp 5 texts 16 32 ≡ some (difference ab b))
    × ((strcmp 5 texts 16 32 ≡ some (pos 0)) ↔ (ab ≡ b))
strcmp_lem_example = strcmp_lem ab b 5 texts 16 32 (omega arith) (omega arith) (omega arith)

strcmp_below : strcmp 5 texts 16 32 ≡ some (negsuc 0)
unfolding strcmp
strcmp_below = refl

memcpy-Copied_example :
    (mem' : Mem) × (memcpy 9 texts 40 16 8 ≡ some mem') × Copied texts 40 16 8 mem'
memcpy-Copied_example =
    memcpy-Copied 9 texts 40 16 8 texts-IsBytes (inr (omega arith)) (omega arith)

printnum_lem_example :
    (ds : List ℕ) × (printnum 1234 10 (pos 6) 48
      ≡ some (replicate (pos_part (pos 6) - length ds) 48 ++ map digit_char (reverse ds)))
    × (read 10 (map digit_char (reverse ds)) 0 ≡ 1234)
    × IsNumeral 10 ds
printnum_lem_example = printnum_lem 1234 10 (pos 6) 48 (omega arith) (omega arith)

memset-Filled_example :
    (mem' : Mem) × (memset 17 texts 16 0x161 16 ≡ some mem') × Filled texts 16 (0x161 % 256) 16 mem'
memset-Filled_example = memset-Filled 17 texts 16 0x161 16 (omega arith)
