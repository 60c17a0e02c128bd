-- ===== src/Client/Http.antt =====
-- What the client does over HTTP: a request that the server passes on to a local HTTP service
-- (`readHttpHead`, `runHttpOnce` and `handleHttpStream`), and one of its own (`httpRequest`).
pub mod Input
pub mod Head
pub mod Body
pub mod Forward
pub mod Length
pub mod Pieces
pub mod Chunked
pub mod Answer
pub mod Request
