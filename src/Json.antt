-- ===== src/Json.antt =====
-- tunnel-lite/src/json.hpp: the JSON values of the text protocol.
pub mod Number
pub mod Value
pub mod Print
pub mod Parse
mod Examples
