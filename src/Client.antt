-- ===== src/Client.antt =====
-- The client of tunnel-lite/src/main.cpp.
pub mod Options
pub mod Args
pub mod Mgmt
pub mod Groups
pub mod Streams
pub mod Pool
pub mod Http
pub mod Examples
