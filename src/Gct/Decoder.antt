-- ===== src/Gct/Decoder.antt =====
-- `Decoder` of comsrv/src/protocol/can/gct.rs: GCT messages out of the frames on a bus, with a
-- decoder of each DDP version for each destination.
pub mod SysCtrl
pub mod SingleFrame
use native.Mathlib.Decide.{ℕ_discrete}
use comsrv.Base.{ℕ, List, [], Option, none, some, ◌==◌, if◌then◌else◌}
use comsrv.Base.Assoc
use comsrv.Protocol.MessageId
use comsrv.Protocol.Can.{
  DataFrame, CanMessage, data_frame, remote_frame, GctMessage, Run, returns, panics,
  try_decode_sysctrl, try_decode_monitoring_data, try_decode_monitoring_request,
  try_decode_heartbeat, msgtype_sysctrl, msgtype_monitoring_data, msgtype_monitoring_request,
  msgtype_ddp, msgtype_heartbeat,
}
use comsrv.Gct.DdpV1
use comsrv.Gct.DdpV1.{DdpDecoderV1}
use comsrv.Gct.DdpV2
use comsrv.Gct.DdpV2.{DdpDecoderV2}

pub record Decoder : Type 0 where
  pub ddp_v1 : List (ℕ × DdpDecoderV1)
  pub ddp_v2 : List (ℕ × DdpDecoderV2)

unfoldable pub new : Decoder
new = record { ddp_v1 = []; ddp_v2 = [] }

-- Clears the decoders of version 1 only.
unfoldable pub reset : Decoder → Decoder
reset d = record d { ddp_v1 = [] }

-- `entry(dst).or_insert_with(…)`
or_new {ℓ} : {A : Type ℓ} → Option A → A → A
or_new none fresh = fresh
or_new (some old) fresh = old

first_found : Option GctMessage → Option GctMessage → Option GctMessage
first_found none second = second
first_found (some m) second = some m

-- Both decoders of the destination see the frame, and version 1 is asked first.
unfoldable pub decode_ddp : Decoder → DataFrame → Decoder × Option GctMessage
unfolding or_new first_found
decode_ddp d msg =
    let dst = MessageId.dst msg.id in
    let (v1, msg_v1) =
      DdpV1.decode (or_new (Assoc.get ℕ_discrete dst d.ddp_v1) (DdpV1.new dst)) msg in
    let (v2, msg_v2) =
      DdpV2.decode (or_new (Assoc.get ℕ_discrete dst d.ddp_v2) (DdpV2.new dst)) msg in
    (
      record {
        ddp_v1 = Assoc.insert ℕ_discrete dst v1 d.ddp_v1;
        ddp_v2 = Assoc.insert ℕ_discrete dst v2 d.ddp_v2;
      },
      first_found msg_v1 msg_v2,
    )

with_state : Decoder → Run (Option GctMessage) → Run (Decoder × Option GctMessage)
with_state d (returns m) = returns (d, m)
with_state d panics = panics

unfoldable pub decode_frame : Decoder → DataFrame → Run (Decoder × Option GctMessage)
unfolding with_state
decode_frame d msg =
    let tp = MessageId.msg_type msg.id in
    if msg.ext_id
    then if tp == msgtype_sysctrl
      then returns (d, try_decode_sysctrl msg)
      else if tp == msgtype_monitoring_data
      then returns (d, try_decode_monitoring_data msg)
      else if tp == msgtype_monitoring_request
      then with_state d (try_decode_monitoring_request msg)
      else if tp == msgtype_ddp
      then returns (decode_ddp d msg)
      else if tp == msgtype_heartbeat
      then returns (d, try_decode_heartbeat msg)
      else returns (d, none)
    else returns (d, none)

unfoldable pub decode : Decoder → CanMessage → Run (Decoder × Option GctMessage)
unfolding decode_frame
decode d (data_frame msg) = decode_frame d msg
decode d (remote_frame msg) = returns (d, none)
