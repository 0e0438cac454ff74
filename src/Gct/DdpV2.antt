-- ===== src/Gct/DdpV2.antt =====
-- `DdpDecoderV2` of comsrv/src/protocol/can/gct.rs: it collects the frames of one message by index
-- and joins them once the frame with the EOF flag and all before it are there.
pub mod Parts
pub mod RoundTrip
use native.Mathlib.Decide.{ℕ_discrete}
use comsrv.Base.{
  ℕ, zero, suc, ◌+◌, ◌-◌, Bool, true, false, ◌||◌, List, [], ◌++◌, Option, none, some, length, take,
  bit_and, ltb, ◌==◌, ◌!=◌, if◌then◌else◌, shr,
}
use comsrv.Base.Assoc
use comsrv.Protocol.MessageId
use comsrv.Protocol.Can.{DataFrame, GctMessage, ddp}
use comsrv.Gct.Crc.{crc16}

pub record DdpDecoderV2 : Type 0 where
  pub dst_addr : ℕ
  pub src_start_addr : ℕ
  pub parts : List (ℕ × List ℕ)
  pub eof_received : Bool
  pub max_part_idx : ℕ

unfoldable pub new : ℕ → DdpDecoderV2
new dst = record {
  dst_addr = dst;
  src_start_addr = 0;
  parts = [];
  eof_received = false;
  max_part_idx = 0;
}

-- `max_part_idx` stays.
unfoldable pub reset : DdpDecoderV2 → DdpDecoderV2
reset d = record d { parts = []; src_start_addr = 0; eof_received = false }

append_part : Option (List ℕ) → Option (List ℕ) → Option (List ℕ)
append_part none later = none
append_part (some part) none = none
append_part (some part) (some later) = some (part ++ later)

-- The parts `k`, `k + 1`, …, as many as there are rounds, joined; `none` if one is missing.
unfoldable pub collect : ℕ → ℕ → List (ℕ × List ℕ) → Option (List ℕ)
unfolding append_part
collect zero k parts = some []
collect (suc rounds) k parts =
    append_part (Assoc.get ℕ_discrete k parts) (collect rounds (k + 1) parts)

-- The last lines of `decode`: `none` where a part is missing.
unfoldable pub finish : DdpDecoderV2 → Option (List ℕ) → DdpDecoderV2 × Option GctMessage
unfolding reset
finish d none = (d, none)
finish d (some bytes) =
    let found = some (ddp d.src_start_addr d.dst_addr (take (length bytes - 2) bytes) 2) in
    (reset d, if ltb (length bytes) 2 || crc16 bytes != 0 then none else found)

-- `decode` once the frame is known to be of this message.
unfoldable pub store : DdpDecoderV2 → ℕ → Bool → List ℕ → DdpDecoderV2 × Option GctMessage
unfolding finish
store d idx eof bytes =
    let d' = record d {
      parts = Assoc.insert ℕ_discrete idx bytes d.parts;
      eof_received = if eof then true else d.eof_received;
      max_part_idx = if eof then idx else d.max_part_idx;
    } in
    if d'.eof_received then finish d' (collect (d'.max_part_idx + 1) 0 d'.parts) else (d', none)

unfoldable pub decode : DdpDecoderV2 → DataFrame → DdpDecoderV2 × Option GctMessage
unfolding store reset
decode d msg =
    let src = MessageId.src msg.id in
    let type_data = MessageId.type_data msg.id in
    let idx = bit_and type_data 0xFF in
    let eof = bit_and (shr type_data 10) 1 != 0 in
    let d' = if idx == 0 then record (reset d) { src_start_addr = src } else d in
    if MessageId.dst msg.id != d.dst_addr
    then (d, none)
    else if src != d'.src_start_addr
    then (reset d', none)
    else store d' idx eof msg.bytes
