-- ===== src/Wire.antt =====
-- tunnel-lite/src/codec.hpp, the structs W and R: the fields of a binary frame.
pub mod Result
pub mod Writer
pub mod Reader
pub mod Bounds
pub mod Laws
pub mod RoundTrip
