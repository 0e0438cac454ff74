-- ===== src/Gct/Decoder/SysCtrl.antt =====
-- What a message that fits one frame does in `encode` and `Decoder::decode`, and the system control
-- messages.
use comsrv.Base.{
  ℕ, ◌+◌, ◌*◌, ◌/◌, ◌%◌, ◌^◌, ◌≤◌, ◌<◌, ◌≡◌, refl, true, List, [], ◌∷◌, some, length, bit_or,
  bit_and, shl16, arith,
}
use comsrv.Base.Bits.{bit_or_comm, bit_or_fields, bit_and_mask, bit_and_digit}
use comsrv.Protocol.MessageId
use comsrv.Protocol.Error.{ok}
use comsrv.Protocol.Can.{
  DataFrame, data_frame, SysCtrlType, value, query, neither, GctMessage, sys_ctrl, validate,
  returns, try_decode_sysctrl, try_decode_monitoring_data, try_decode_monitoring_request,
  try_decode_heartbeat,
}
use comsrv.Gct.Encode.{frames, encode, flag_value, flag_query}
use comsrv.Gct.Decoder.{Decoder, decode}

-- The frame that carries `msg`, and that the decoder reads as `seen` and nothing else.
pub record Carries (d : Decoder) (msg seen : GctMessage) (f : DataFrame) : Type 0 where
  pub encoded : encode msg ≡ ok (data_frame f ∷ [])
  pub decoded : decode d (data_frame f) ≡ returns (d, some seen)
  pub extended : f.ext_id ≡ true
  pub id_fits : f.id < 2 ^ 29
  pub bytes_fit : length f.bytes ≤ 8

sysctrl_type_data :
    (cmd v q : ℕ)
    → cmd < 1024
    → v < 2
    → q < 2
    → bit_or (bit_or (shl16 cmd 2) (shl16 v 1)) q ≡ cmd * 4 + v * 2 + q
sysctrl_type_data cmd v q hc hv hq = ground (
  arith,
  bit_or_comm (cmd * 4) (v * 2),
  bit_or_fields 2 cmd (v * 2),
  bit_or_comm (v * 2 + cmd * 4) q,
  bit_or_fields 1 (v + cmd * 2) q,
)

second_bit : (y : ℕ) → bit_and y 2 ≡ y / 2 % 2 * 2
second_bit y = omega (arith, bit_and_digit y 2, bit_and_mask 1 (y / 2))

try_decode_sysctrl_lem :
    (msg : DataFrame) (src dst cmd : ℕ) (tp : SysCtrlType)
    → src < 127
    → MessageId.src msg.id ≡ src
    → MessageId.dst msg.id ≡ dst
    → MessageId.type_data msg.id ≡ cmd * 4 + flag_value tp * 2 + flag_query tp
    → try_decode_sysctrl msg ≡ some (sys_ctrl src dst cmd tp msg.bytes)
unfolding try_decode_sysctrl flag_value flag_query
try_decode_sysctrl_lem msg src dst cmd value hs es ed ey =
    let y = MessageId.type_data msg.id in ground (arith, second_bit y, bit_and_mask 1 y)
try_decode_sysctrl_lem msg src dst cmd query hs es ed ey =
    let y = MessageId.type_data msg.id in ground (arith, second_bit y, bit_and_mask 1 y)
try_decode_sysctrl_lem msg src dst cmd neither hs es ed ey =
    let y = MessageId.type_data msg.id in ground (arith, second_bit y, bit_and_mask 1 y)

flag_bounds : (tp : SysCtrlType) → (flag_value tp < 2) × (flag_query tp < 2)
unfolding flag_value flag_query
flag_bounds value = omega arith
flag_bounds query = omega arith
flag_bounds neither = omega arith

-- Which decoder an extended frame goes to.
module _ (d : Decoder) (f : DataFrame) (extended : f.ext_id ≡ true) where
  to_sysctrl :
      MessageId.msg_type f.id ≡ 1 → decode d (data_frame f) ≡ returns (d, try_decode_sysctrl f)
  unfolding decode
  to_sysctrl e = ground arith

  pub to_monitoring_data :
      MessageId.msg_type f.id ≡ 7
      → decode d (data_frame f) ≡ returns (d, try_decode_monitoring_data f)
  unfolding decode
  to_monitoring_data e = ground arith

  pub to_monitoring_request :
      (m : GctMessage)
      → MessageId.msg_type f.id ≡ 8
      → try_decode_monitoring_request f ≡ returns (some m)
      → decode d (data_frame f) ≡ returns (d, some m)
  unfolding decode
  to_monitoring_request m e r = ground arith

  pub to_heartbeat :
      MessageId.msg_type f.id ≡ 14 → decode d (data_frame f) ≡ returns (d, try_decode_heartbeat f)
  unfolding decode
  to_heartbeat e = ground arith

-- A valid system control message is sent as one extended frame, of a 29 bit identifier and at
-- most 8 bytes, and a decoder in any state reads that message from it with the command modulo
-- 512, and keeps its state.
pub encode_sysctrl :
    (d : Decoder) (src dst cmd : ℕ) (tp : SysCtrlType) (bytes : List ℕ)
    → validate (sys_ctrl src dst cmd tp bytes) ≡ true
    → (f : DataFrame) × Carries d
        (sys_ctrl src dst cmd tp bytes)
        (sys_ctrl src dst (cmd % 512) tp bytes)
        f
unfolding validate encode frames
encode_sysctrl d src dst cmd tp bytes h =
    let sent = cmd * 4 + flag_value tp * 2 + flag_query tp in
    let y = cmd % 512 * 4 + flag_value tp * 2 + flag_query tp in
    let f : DataFrame = record { id = MessageId.new 1 src dst y; ext_id = true; bytes = bytes } in
    let (hv, hq) = flag_bounds tp in
    let hs : src < 127 = ground arith in
    let hd : dst < 128 = ground arith in
    let (ft, fs, fd, fy) =
      MessageId.new_fields 1 src dst y (omega arith) (omega arith) hd (omega arith) in
    let sum = sysctrl_type_data cmd (flag_value tp) (flag_query tp) (ground arith) hv hq in
    let low : sent % 2048 ≡ y = omega arith in
    let read = try_decode_sysctrl_lem f src dst (cmd % 512) tp hs fs fd fy in
    (
      f,
      record {
        encoded = rw (h, sum, MessageId.new_wraps 1 src dst sent, low);
        decoded = rw (to_sysctrl d f refl ft, read);
        extended = refl;
        id_fits = MessageId.new-lt 1 src dst y (omega arith) (omega arith) hd (omega arith);
        bytes_fit = ground arith;
      },
    )
