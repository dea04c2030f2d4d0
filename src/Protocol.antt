-- ===== src/Protocol.antt =====
-- ndt5/protocol: message types, frames, the two encodings and the connection that carries them.
pub mod Kind
pub mod Conn
pub mod Transfer
pub mod Identity
pub mod Tlv
pub mod Json
pub mod Messager
pub mod Metrics
pub mod Frames
pub mod Streams
pub mod Delivery
pub mod Reports
pub mod Tests
