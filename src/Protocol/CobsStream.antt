-- ===== src/Protocol/CobsStream.antt =====
-- protocol/src/cobs_stream.rs: the requests for a stream of COBS frames.
use comsrv.Base.{ℕ, Bool, List}

pub data CobsStreamRequest : Type 0 where
  start : (use_crc : Bool) → CobsStreamRequest
  stop : CobsStreamRequest
  send_frame : (payload : List ℕ) → CobsStreamRequest
