-- ===== src/Console.antt =====
-- The program's `syscall` (benchmarks/common/syscalls.c) against the driver's device (rocket/rocket-main.cpp).
pub mod Link
pub mod Strings
pub mod Lines
pub mod Chunks
pub mod Text
pub mod Ending
pub mod Tests
