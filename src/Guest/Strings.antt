-- ===== src/Guest/Strings.antt =====
-- The string functions of benchmarks/common/syscalls.c. Each loop has fuel, and `none` is fuel that ran
-- out: a string with no end. Pointers are numbers that do not wrap.
use arc_tests.Prelude.{ℕ, zero, suc, ◌+◌, ◌-◌, Option, none, some, ◌==◌, ◌&&◌, not, if◌then◌else◌}
use mathlib.Core.Option
use arc_tests.Prelude.Int.{ℤ, sub_ℕ}
use arc_tests.Guest.Memory.{Mem, poke}

-- `while (*p) p++;`, the final `p`.
unfoldable pub skip_string : ℕ → Mem → ℕ → Option ℕ
skip_string zero mem p = none
skip_string (suc fuel) mem p =
    let rest = skip_string fuel mem (p + 1) in if mem p == 0 then some p else rest

unfoldable pub strlen : ℕ → Mem → ℕ → Option ℕ
strlen fuel mem s = Option.map (λ p. p - s) (skip_string fuel mem s)

-- `while (n-- && *p) p++;`, the final `p`.
unfoldable pub skip_bounded : ℕ → Mem → ℕ → ℕ
skip_bounded zero mem p = p
skip_bounded (suc n) mem p = let rest = skip_bounded n mem (p + 1) in if mem p == 0 then p else rest

unfoldable pub strnlen : Mem → ℕ → ℕ → ℕ
strnlen mem s n = skip_bounded n mem s - s

-- `do { c1 = *s1++; c2 = *s2++; } while (c1 != 0 && c1 == c2); return c1 - c2;`
unfoldable pub strcmp : ℕ → Mem → ℕ → ℕ → Option ℤ
strcmp zero mem s1 s2 = none
strcmp (suc fuel) mem s1 s2 =
    let c1 = mem s1 in
    let c2 = mem s2 in
    let rest = strcmp fuel mem (s1 + 1) (s2 + 1) in
    if not (c1 == 0) && c1 == c2 then rest else some (sub_ℕ c1 c2)

-- `while ((*d++ = *src++));`
unfoldable pub strcpy : ℕ → Mem → ℕ → ℕ → Option Mem
strcpy zero mem dest src = none
strcpy (suc fuel) mem dest src =
    let c = mem src in
    let mem' = poke mem dest c in
    let rest = strcpy fuel mem' (dest + 1) (src + 1) in if c == 0 then some mem' else rest
