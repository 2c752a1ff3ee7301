-- ===== src/Guest/Startup/Locals.antt =====
-- The thread-local variables that `init_tls` of benchmarks/common/syscalls.c sets up.
use arc_tests.Prelude.{ℕ, ◌+◌, ◌-◌, ◌<◌, ◌≤◌, ◌≡◌, arith, some, ltb, leb, ◌&&◌, if◌then◌else◌}
use arc_tests.Guest.Memory.{Mem, IsBytes}
use arc_tests.Guest.Copy.Block.{Apart, memcpy-Copied}
use arc_tests.Guest.Copy.Fill.{memset-Filled}
use arc_tests.Guest.Startup.{Tls, init_tls}

-- Behind the thread pointer, the variables that have a value, and then zeros; all else is as before.
abbrev pub IsSetUp : Tls → Mem → Mem → Type 0
IsSetUp tls mem mem' =
    (i : ℕ)
    → mem' i ≡ (
        if leb tls.thread_pointer i && ltb i (tls.thread_pointer + (tls.tbss_end - tls.tdata_begin))
        then (if ltb i (tls.thread_pointer + (tls.tdata_end - tls.tdata_begin))
            then mem (tls.tdata_begin + (i - tls.thread_pointer))
            else 0)
        else mem i)

-- `init_tls` returns and has set up the variables of the thread, if their initial values do not overlap with them.
pub init_tls-IsSetUp :
    (fuel : ℕ) (tls : Tls) (mem : Mem)
    → IsBytes mem
    → tls.tdata_begin ≤ tls.tdata_end
    → tls.tdata_end ≤ tls.tbss_end
    → Apart tls.thread_pointer tls.tdata_begin (tls.tdata_end - tls.tdata_begin)
    → tls.tbss_end - tls.tdata_begin < fuel
    → (mem' : Mem) × (init_tls fuel tls mem ≡ some mem') × IsSetUp tls mem mem'
unfolding init_tls
init_tls-IsSetUp fuel tls mem bytes le le' apart lt =
    let tdata_size = tls.tdata_end - tls.tdata_begin in
    let tbss_size = tls.tbss_end - tls.tdata_end in
    let (mem₁, copies, copied) =
      memcpy-Copied fuel mem tls.thread_pointer tls.tdata_begin tdata_size bytes apart
        (omega (arith, le, le', lt)) in
    let (mem₂, fills, filled) =
      memset-Filled fuel mem₁ (tls.thread_pointer + tdata_size) 0 tbss_size
        (omega (arith, le, le', lt)) in
    (mem₂, rw copies fills, λ q. ground (arith, copied q, filled q, le, le'))
