-- ===== src/Gct.antt =====
-- comsrv/src/protocol/can: the GCT protocol over CAN frames.
pub mod Crc
pub mod DdpV1
pub mod DdpV2
pub mod Encode
pub mod Decoder
