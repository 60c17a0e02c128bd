-- ===== src/Net.antt =====
-- tunnel-lite/src/net.cpp: reading from the socket, WebSocket frames and URLs.
pub mod Socket
pub mod Frame
pub mod Url
pub mod Handshake
