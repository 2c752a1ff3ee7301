-- ===== src/Boom.antt =====
-- The driver of the BOOM core (boom/boom-main.cpp). Its structs have the members of those of rocket/rocket-main.cpp, so
-- the state is that of the modules Axi, Host and Driver; what the code does with it is translated here on its own.
pub mod Port
pub mod Host
pub mod Model
pub mod Main
pub mod Same
pub mod Ends
pub mod Tests
