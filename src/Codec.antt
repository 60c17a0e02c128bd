-- ===== src/Codec.antt =====
-- tunnel-lite/src/codec.hpp: the messages between client and server, in both protocols.
pub mod Types
pub mod Encode
pub mod Decode
pub mod Bounds
pub mod Server
pub mod Interop
