-- ===== src/Host.antt =====
-- The test driver around a simulated design (rocket/rocket-main.cpp): the memory that it serves, the
-- program that it loads into it, and the device through which a program prints and ends.
pub mod Word
pub mod Memory
pub mod Loader
pub mod Endless
pub mod Consistent
pub mod Device
pub mod Console
pub mod Widths
pub mod Tests
