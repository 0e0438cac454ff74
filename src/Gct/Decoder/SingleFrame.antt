-- ===== src/Gct/Decoder/SingleFrame.antt =====
-- The GCT messages that fit one CAN frame, through `encode` and `Decoder::decode`.
use comsrv.Base.{
  ℕ, ◌+◌, ◌-◌, ◌*◌, ◌%◌, ◌^◌, ◌<◌, ◌≡◌, refl, true, List, [], length, bit_or, shl16, arith, sym,
  append-nil, ◌++◌, replicate, take, take-append, to_le_bytes, length-to_le_bytes,
  from_le_bytes-to_le_bytes,
}
use comsrv.Base.Bits.{bit_or_comm, bit_or_fields, bit_and_mask}
use comsrv.Protocol.MessageId
use comsrv.Protocol.Can.{
  DataFrame, GctMessage, sys_ctrl, monitoring_data, monitoring_request, ddp, heartbeat, validate,
  try_decode_monitoring_data, try_decode_monitoring_request, try_decode_heartbeat,
}
use comsrv.Gct.Encode.{frames, encode}
use comsrv.Gct.Decoder.{Decoder}
use comsrv.Gct.Decoder.SysCtrl.{
  Carries, to_monitoring_data, to_monitoring_request, to_heartbeat, encode_sysctrl,
}

encode_monitoring_data :
    (d : Decoder) (src group_idx reading_idx : ℕ) (bytes : List ℕ)
    → validate (monitoring_data src group_idx reading_idx bytes) ≡ true
    → (f : DataFrame) × Carries d
        (monitoring_data src group_idx reading_idx bytes)
        (monitoring_data src group_idx reading_idx bytes)
        f
unfolding validate encode frames try_decode_monitoring_data
encode_monitoring_data d src group_idx reading_idx bytes h =
    let y = reading_idx + group_idx * 2 ^ 6 in
    let f : DataFrame = record { id = MessageId.new 7 src 127 y; ext_id = true; bytes = bytes } in
    let hs : src < 127 = ground arith in
    let hg : group_idx < 32 = ground arith in
    let hr : reading_idx < 64 = ground arith in
    let (ft, fs, fd, fy) =
      MessageId.new_fields 7 src 127 y (omega arith) (omega arith) (omega arith) (omega arith) in
    let sum : bit_or (shl16 group_idx 6) reading_idx ≡ y =
      ground
        (arith, bit_or_comm (group_idx * 64) reading_idx, bit_or_fields 6 group_idx reading_idx) in
    (
      f,
      record {
        encoded = rw (h, sum);
        decoded = rw (to_monitoring_data d f refl ft) (ground (arith, fs, fy, bit_and_mask 6 y));
        extended = refl;
        id_fits =
            MessageId.new-lt 7 src 127 y (omega arith) (omega arith) (omega arith) (omega arith);
        bytes_fit = ground arith;
      },
    )

-- A frame of at most 8 bytes is padded with zeros.
take_filled :
    (bytes : List ℕ) → length bytes ≡ 8 → take 8 (bytes ++ replicate (8 - length bytes) 0) ≡ bytes
take_filled bytes h = take-append 8 bytes _ (sym h)

encode_monitoring_request :
    (d : Decoder) (src dst group_idx readings : ℕ)
    → readings < 2 ^ 64
    → validate (monitoring_request src dst group_idx readings) ≡ true
    → (f : DataFrame) × Carries d
        (monitoring_request src dst group_idx readings)
        (monitoring_request src dst group_idx readings)
        f
unfolding validate encode frames try_decode_monitoring_request
encode_monitoring_request d src dst group_idx readings fits h =
    let y = group_idx * 2 ^ 6 in
    let bytes = to_le_bytes 8 readings in
    let f : DataFrame = record { id = MessageId.new 8 src dst y; ext_id = true; bytes = bytes } in
    let hs : src < 127 = ground arith in
    let hd : dst < 128 = ground arith in
    let hg : group_idx < 32 = ground arith in
    let len = length-to_le_bytes 8 readings in
    let (ft, fs, fd, fy) =
      MessageId.new_fields 8 src dst y (omega arith) (omega arith) hd (omega arith) in
    let sum : shl16 group_idx 6 ≡ y = omega arith in
    let back = from_le_bytes-to_le_bytes 8 readings (omega arith) in
    (
      f,
      record {
        encoded = rw (h, sum);
        decoded =
            to_monitoring_request d f refl _ ft
              (ground (arith, fs, fd, fy, len, take_filled bytes len, back));
        extended = refl;
        id_fits = MessageId.new-lt 8 src dst y (omega arith) (omega arith) hd (omega arith);
        bytes_fit = omega arith;
      },
    )

encode_heartbeat :
    (d : Decoder) (src product_id : ℕ)
    → product_id < 2 ^ 16
    → validate (heartbeat src product_id) ≡ true
    → (f : DataFrame) × Carries d (heartbeat src product_id) (heartbeat src product_id) f
unfolding validate encode frames try_decode_heartbeat
encode_heartbeat d src product_id fits h =
    let bytes = to_le_bytes 2 product_id in
    let f : DataFrame = record { id = MessageId.new 14 src 127 0; ext_id = true; bytes = bytes } in
    let hs : src < 127 = ground arith in
    let len = length-to_le_bytes 2 product_id in
    let (ft, fs, fd, fy) =
      MessageId.new_fields 14 src 127 0 (omega arith) (omega arith) (omega arith) (omega arith) in
    let back = from_le_bytes-to_le_bytes 2 product_id (omega arith) in
    (
      f,
      record {
        encoded = rw h;
        decoded =
            rw (to_heartbeat d f refl ft)
              (ground (arith, fs, len, rw append-nil at (take-append 2 bytes [] (sym len)), back));
        extended = refl;
        id_fits =
            MessageId.new-lt 14 src 127 0 (omega arith) (omega arith) (omega arith) (omega arith);
        bytes_fit = omega arith;
      },
    )

-- Messages in one frame whose fields have the widths of their Rust types and of the identifier.
abbrev pub FitsOneFrame : GctMessage → Type 0
FitsOneFrame (sys_ctrl src dst cmd tp bytes) = cmd < 512
FitsOneFrame (monitoring_data src group_idx reading_idx bytes) = Unit
FitsOneFrame (monitoring_request src dst group_idx readings) = readings < 2 ^ 64
FitsOneFrame (ddp src dst bytes version) = ⊥
FitsOneFrame (heartbeat src product_id) = product_id < 2 ^ 16

-- A valid message that fits one frame (a command below 512, a product id of 16 bits, readings of
-- 64 bits) is sent as one extended frame, of a 29 bit identifier and at most 8 bytes, and a
-- decoder in any state reads exactly that message from it and keeps its state.
pub decode-encode :
    (d : Decoder) (msg : GctMessage)
    → FitsOneFrame msg
    → validate msg ≡ true
    → (f : DataFrame) × Carries d msg msg f
decode-encode d (sys_ctrl src dst cmd tp bytes) fits h =
    let e : cmd % 512 ≡ cmd = omega arith in rw e at (encode_sysctrl d src dst cmd tp bytes h)
decode-encode d (monitoring_data src group_idx reading_idx bytes) fits h =
    encode_monitoring_data d src group_idx reading_idx bytes h
decode-encode d (monitoring_request src dst group_idx readings) fits h =
    encode_monitoring_request d src dst group_idx readings fits h
decode-encode d (ddp src dst bytes version) fits h = absurd fits
decode-encode d (heartbeat src product_id) fits h = encode_heartbeat d src product_id fits h
