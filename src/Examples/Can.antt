-- ===== src/Examples/Can.antt =====
-- CAN messages: identifiers, checksums, DDP and single frames.
use comsrv.Base.{ℕ, ◌+◌, ◌/◌, ◌≡◌, refl, List, [], ◌∷◌, ◌++◌, length, replicate, none, some, arith}
use comsrv.Protocol.Can.{DataFrame, sys_ctrl, ddp, value, validate}
use comsrv.Gct.Crc.{crc16, with_crc, crc16-with_crc}
use comsrv.Gct.DdpV1
use comsrv.Gct.DdpV1.RoundTrip.{decode_all as decode_all_v1, decode-encode_ddp_v1}
use comsrv.Gct.DdpV2
use comsrv.Gct.DdpV2.RoundTrip.{decode_all as decode_all_v2, decode-encode_ddp_v2}
use comsrv.Gct.Encode.{encode_ddp_v1, encode_ddp_v2}
use comsrv.Gct.Decoder
use comsrv.Gct.Decoder.SysCtrl.{Carries}
use comsrv.Gct.Decoder.SingleFrame.{decode-encode}

-- Ten bytes make two frames of version 1.
abbrev ten_bytes : List ℕ
ten_bytes = 1 ∷ 2 ∷ 3 ∷ 4 ∷ 5 ∷ 6 ∷ 7 ∷ 8 ∷ 9 ∷ 10 ∷ []

decode-encode_ddp_v1_example :
    (decode_all_v1 (DdpV1.new 5) (encode_ddp_v1 3 5 ten_bytes)).1
    ≡ replicate ((length ten_bytes + 1) / 8) none ++ some (ddp 3 5 ten_bytes 1) ∷ []
unfolding DdpV1.new
decode-encode_ddp_v1_example =
    decode-encode_ddp_v1 (DdpV1.new 5) 3 ten_bytes (omega arith) (omega arith) (omega arith)

decode-encode_ddp_v2_example :
    (decode_all_v2 (DdpV2.new 5) (encode_ddp_v2 3 5 ten_bytes)).1
    ≡ replicate ((length ten_bytes + 1) / 8) none ++ some (ddp 3 5 ten_bytes 2) ∷ []
unfolding DdpV2.new
decode-encode_ddp_v2_example =
    decode-encode_ddp_v2 (DdpV2.new 5) 3 1 (2 ∷ 3 ∷ 4 ∷ 5 ∷ 6 ∷ 7 ∷ 8 ∷ 9 ∷ 10 ∷ []) (omega arith)
      (omega arith) (omega arith)

decode-encode_example :
    (f : DataFrame) × Carries Decoder.new
      (sys_ctrl 1 2 300 value (7 ∷ []))
      (sys_ctrl 1 2 300 value (7 ∷ []))
      f
unfolding validate
decode-encode_example =
    decode-encode Decoder.new (sys_ctrl 1 2 300 value (7 ∷ [])) (omega arith) refl

crc16-with_crc_example : crc16 (with_crc (1 ∷ 2 ∷ 3 ∷ [])) ≡ 0
crc16-with_crc_example = crc16-with_crc (1 ∷ 2 ∷ 3 ∷ [])
