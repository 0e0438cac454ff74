-- ===== src/Protocol.antt =====
-- The crate protocol/: the messages that clients and server exchange, and the error type.
pub mod Error
pub mod MessageId
pub mod Can
pub mod CobsStream
pub mod Scpi
