-- ===== src/Gct/DdpV1.antt =====
-- `DdpDecoderV1` of comsrv/src/protocol/can/gct.rs: it joins the frames of one message, which carry
-- their index and the index of the last frame.
pub mod RoundTrip
use comsrv.Base.{
  ℕ, ◌+◌, ◌-◌, Bool, true, false, not, ◌||◌, List, [], ◌++◌, Option, none, some, length, take,
  bit_and, ltb, ◌==◌, ◌!=◌, if◌then◌else◌, as_u8, shr,
}
use comsrv.Protocol.MessageId
use comsrv.Protocol.Can.{DataFrame, GctMessage, ddp}
use comsrv.Gct.Crc.{crc16}

-- `bytes` is the field `data`.
pub record DdpDecoderV1 : Type 0 where
  pub dst_addr : ℕ
  pub src_start_addr : ℕ
  pub frames_received : ℕ
  pub expected_frame_cnt : ℕ
  pub started : Bool
  pub bytes : List ℕ

unfoldable pub new : ℕ → DdpDecoderV1
new dst = record {
  dst_addr = dst;
  src_start_addr = 0;
  frames_received = 0;
  expected_frame_cnt = 0;
  started = false;
  bytes = [];
}

unfoldable pub reset : DdpDecoderV1 → DdpDecoderV1
reset d = record d { frames_received = 0; started = false; bytes = [] }

-- Does not change the decoder.
unfoldable pub decode_completed : DdpDecoderV1 → Option GctMessage
decode_completed d =
    if ltb (length d.bytes) 2
    then none
    else if crc16 d.bytes != 0
    then none
    else some (ddp d.src_start_addr d.dst_addr (take (length d.bytes - 2) d.bytes) 1)

-- The last lines of `decode`, for a frame that fits.
unfoldable pub accept : DdpDecoderV1 → ℕ → ℕ → List ℕ → DdpDecoderV1 × Option GctMessage
accept d frame_idx frame_size bytes =
    let d' = record d { frames_received = frame_idx; bytes = d.bytes ++ bytes } in
    (d', if frame_idx == frame_size then decode_completed d' else none)

unfoldable pub decode : DdpDecoderV1 → DataFrame → DdpDecoderV1 × Option GctMessage
unfolding accept reset
decode d msg =
    let type_data = MessageId.type_data msg.id in
    let frame_size = as_u8 (bit_and (shr type_data 8) 0x7) in
    let frame_idx = as_u8 (bit_and (shr type_data 5) 0x7) in
    let first = record (reset d) {
      expected_frame_cnt = frame_size;
      src_start_addr = MessageId.src msg.id;
      started = true;
    } in
    if MessageId.dst msg.id != d.dst_addr
    then (d, none)
    else if frame_idx == 0
    then accept first frame_idx frame_size msg.bytes
    else if d.frames_received + 1 != frame_idx || frame_size != d.expected_frame_cnt
    then (reset d, none)
    else if d.src_start_addr != MessageId.src msg.id || not d.started
    then (d, none)
    else accept d frame_idx frame_size msg.bytes
