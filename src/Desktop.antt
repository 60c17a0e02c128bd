-- ===== src/Desktop.antt =====
-- tunnel-cpp/core/src: the library of the Qt client. A QString is its text as bytes; a QMap and a QHash are
-- maps whose keys stand in order.
pub mod Qt
pub mod Protocol
pub mod Config
pub mod Api
pub mod Forwarder
pub mod Client
pub mod Session
mod Examples
