-- ===== src/Gct/Encode.antt =====
-- `encode` of comsrv/src/protocol/can/gct.rs: a GCT message as CAN frames.
use comsrv.Base.{
  ℕ, ◌+◌, ◌-◌, ◌/◌, true, ◌||◌, List, [], ◌∷◌, length, bit_and, bit_or, ◌==◌, if◌then◌else◌, shl16,
  as_u16, to_le_bytes, map,
}
use comsrv.Base.Chunks.{chunks}
use comsrv.Protocol.MessageId
use comsrv.Protocol.Error.{Result, ok, err, argument_error}
use comsrv.Protocol.Can.{
  DataFrame, CanMessage, data_frame, SysCtrlType, value, query, neither, GctMessage, sys_ctrl,
  monitoring_data, monitoring_request, ddp, heartbeat, validate, broadcast_addr, msgtype_sysctrl,
  msgtype_monitoring_data, msgtype_monitoring_request, msgtype_ddp, msgtype_heartbeat,
}
use comsrv.Gct.Crc.{with_crc}

-- An extended data frame with an identifier of these fields.
abbrev pub frame : ℕ → ℕ → ℕ → ℕ → List ℕ → DataFrame
frame msg_type src dst type_data bytes = record {
  id = MessageId.new msg_type src dst type_data;
  ext_id = true;
  bytes = bytes;
}

-- `for (idx, chunk) in chunks.into_iter().enumerate()`, from `idx` on.
unfoldable pub v1_frames : ℕ → ℕ → ℕ → ℕ → List (List ℕ) → List DataFrame
v1_frames src dst part_count idx [] = []
v1_frames src dst part_count idx (chunk ∷ rest) =
    frame msgtype_ddp src dst (bit_or (shl16 (as_u16 part_count) 8) (shl16 (as_u16 idx) 5)) chunk
    ∷ v1_frames src dst part_count (idx + 1) rest

unfoldable pub encode_ddp_v1 : ℕ → ℕ → List ℕ → List DataFrame
encode_ddp_v1 src dst bytes =
    let pieces = chunks 8 (with_crc bytes) in v1_frames src dst (length pieces - 1) 0 pieces

-- The frame `max_idx` carries the EOF flag.
unfoldable pub v2_frames : ℕ → ℕ → ℕ → ℕ → List (List ℕ) → List DataFrame
v2_frames src dst max_idx idx [] = []
v2_frames src dst max_idx idx (chunk ∷ rest) =
    let type_data = if idx == max_idx then bit_or (bit_and idx 0xFF) 0x400 else bit_and idx 0xFF in
    frame msgtype_ddp src dst (as_u16 type_data) chunk ∷ v2_frames src dst max_idx (idx + 1) rest

unfoldable pub encode_ddp_v2 : ℕ → ℕ → List ℕ → List DataFrame
encode_ddp_v2 src dst [] = []
encode_ddp_v2 src dst (b ∷ bytes) =
    let whole = with_crc (b ∷ bytes) in
    v2_frames src dst ((length whole - 1) / 8) 0 (chunks 8 whole)

-- `value as u16` and `query as u16`.
unfoldable pub flag_value : SysCtrlType → ℕ
flag_value value = 1
flag_value query = 0
flag_value neither = 0

unfoldable pub flag_query : SysCtrlType → ℕ
flag_query value = 0
flag_query query = 1
flag_query neither = 0

unfoldable pub frames : GctMessage → List DataFrame
unfolding flag_value flag_query
frames (sys_ctrl src dst cmd tp bytes) =
    let type_data = bit_or (bit_or (shl16 cmd 2) (shl16 (flag_value tp) 1)) (flag_query tp) in
    frame msgtype_sysctrl src dst type_data bytes ∷ []
frames (monitoring_data src group_idx reading_idx bytes) =
    frame msgtype_monitoring_data src broadcast_addr (bit_or (shl16 group_idx 6) reading_idx) bytes
    ∷ []
frames (monitoring_request src dst group_idx readings) =
    frame msgtype_monitoring_request src dst (shl16 group_idx 6) (to_le_bytes 8 readings) ∷ []
frames (ddp src dst bytes version) =
    if version == 0 || version == 1
    then encode_ddp_v1 src dst bytes
    else if version == 2
    then encode_ddp_v2 src dst bytes
    else []
frames (heartbeat src product_id) =
    frame msgtype_heartbeat src broadcast_addr 0 (to_le_bytes 2 product_id) ∷ []

unfoldable pub encode : GctMessage → Result (List CanMessage)
encode msg = if validate msg then ok (map data_frame (frames msg)) else err argument_error
