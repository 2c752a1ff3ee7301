-- ===== src/Guest.antt =====
-- The runtime of a benchmark, which runs inside the simulated design (benchmarks/common/syscalls.c and
-- benchmarks/common/util.h).
pub mod Memory
pub mod Copy
pub mod Number
pub mod Stdio
pub mod Format
pub mod Print
pub mod Atol
pub mod Barrier
pub mod Util
pub mod Startup
pub mod Strings
pub mod Cstring
pub mod Syscall
pub mod Tests
