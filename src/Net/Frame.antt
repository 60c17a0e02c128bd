-- ===== src/Net/Frame.antt =====
-- WebSocket frames: WebSocket::sendFrame and WebSocket::recvMessage of tunnel-lite/src/net.cpp.
pub mod Mask
pub mod Send
pub mod Receive
pub mod Laws
pub mod Reassemble
pub mod RoundTrip
pub mod Chunks
