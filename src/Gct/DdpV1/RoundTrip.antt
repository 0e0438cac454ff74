-- ===== src/Gct/DdpV1/RoundTrip.antt =====
-- A version 1 DDP message comes back from the frames that `encode_ddp_v1` makes of it.
use comsrv.Base.{
  ℕ, suc, ◌+◌, ◌-◌, ◌*◌, ◌/◌, ◌≤◌, ◌<◌, ◌≡◌, refl, true, List, [], ◌∷◌, ◌++◌, Option, none, some,
  append-nil, append_assoc, length, replicate, bit_or, shl16, as_u16, arith, ◌==◌, if◌then◌else◌,
}
use comsrv.Base.Bits.{bit_or_comm, bit_or_fields, bit_and_mask}
use comsrv.Base.Chunks.{chunks, join, join-chunks, length-chunks}
use comsrv.Protocol.MessageId
use comsrv.Protocol.Can.{DataFrame, GctMessage, ddp, msgtype_ddp}
use comsrv.Gct.Crc.{with_crc, crc16-with_crc, length-with_crc, take-with_crc}
use comsrv.Gct.DdpV1.{DdpDecoderV1, decode, decode_completed}
use comsrv.Gct.Encode.{frame, v1_frames, encode_ddp_v1}

-- The decoder after a list of frames, and what it reported at each.
unfoldable pub decode_all : DdpDecoderV1 → List DataFrame → DdpDecoderV1 × List (Option GctMessage)
decode_all d [] = (d, [])
decode_all d (msg ∷ rest) =
    let (d', found) = decode d msg in let (d'', later) = decode_all d' rest in (d'', found ∷ later)

-- What the decoder holds after frame `idx` of a message whose last frame is `last`.
abbrev receiving : ℕ → ℕ → ℕ → ℕ → List ℕ → DdpDecoderV1
receiving dst src last idx bytes = record {
  dst_addr = dst;
  src_start_addr = src;
  frames_received = idx;
  expected_frame_cnt = last;
  started = true;
  bytes = bytes;
}

abbrev v1_type_data : ℕ → ℕ → ℕ
v1_type_data last idx = bit_or (shl16 (as_u16 last) 8) (shl16 (as_u16 idx) 5)

v1_type_data-sum :
    (last idx : ℕ) → last < 8 → idx < 8 → v1_type_data last idx ≡ last * 256 + idx * 32
v1_type_data-sum last idx hl hi =
    ground (arith, bit_or_comm (last * 256) (idx * 32), bit_or_fields 8 last (idx * 32))

abbrev report : DdpDecoderV1 → ℕ → ℕ → DdpDecoderV1 × Option GctMessage
report d idx last = (d, if idx == last then decode_completed d else none)

module _ (src dst last : ℕ) (hs : src < 128) (hd : dst < 128) (hl : last < 8) where
  first_frame :
      (d : DdpDecoderV1) (piece : List ℕ)
      → d.dst_addr ≡ dst
      → decode d (frame msgtype_ddp src dst (v1_type_data last 0) piece)
        ≡ report (receiving dst src last 0 piece) 0 last
  unfolding decode
  first_frame d piece e = ground (
    arith,
    v1_type_data-sum last 0,
    MessageId.new_fields 12 src dst (last * 256 + 0 * 32),
    bit_and_mask 3 last,
    bit_and_mask 3 (last * 8),
  )

  next_frame :
      (idx : ℕ) (bytes piece : List ℕ)
      → idx + 1 < 8
      → decode
          (receiving dst src last idx bytes)
          (frame msgtype_ddp src dst (v1_type_data last (idx + 1)) piece)
        ≡ report (receiving dst src last (idx + 1) (bytes ++ piece)) (idx + 1) last
  unfolding decode
  next_frame idx bytes piece h = ground (
    arith,
    v1_type_data-sum last (idx + 1),
    MessageId.new_fields 12 src dst (last * 256 + (idx + 1) * 32),
    bit_and_mask 3 last,
    bit_and_mask 3 (last * 8 + (idx + 1)),
  )

  -- The frames from `idx + 1` on: the last one completes the message.
  later_frames :
      (idx : ℕ) (bytes piece : List ℕ) (pieces : List (List ℕ))
      → idx + suc (length pieces) ≡ last
      → (decode_all
          (receiving dst src last idx bytes)
          (v1_frames src dst last (idx + 1) (piece ∷ pieces))).1
        ≡ replicate (length pieces) none
          ++ decode_completed (receiving dst src last last (bytes ++ join (piece ∷ pieces))) ∷ []
  unfolding decode_all v1_frames join
  later_frames idx bytes piece [] h =
      rw (next_frame idx bytes piece (omega arith)) (ground (arith, append-nil piece))
  later_frames idx bytes piece (next ∷ pieces) h =
      let step = next_frame idx bytes piece (omega arith) in
      let rest = later_frames (idx + 1) (bytes ++ piece) next pieces (omega arith) in
      let regroup = append_assoc bytes piece (next ++ join pieces) in
      rw (step, decode_all) (ground (arith, rest, regroup))

  all_frames :
      (d : DdpDecoderV1) (pieces : List (List ℕ))
      → d.dst_addr ≡ dst
      → length pieces ≡ suc last
      → (decode_all d (v1_frames src dst last 0 pieces)).1
        ≡ replicate last none ++ decode_completed (receiving dst src last last (join pieces)) ∷ []
  unfolding decode_all v1_frames join
  all_frames d [] e h = absurd (omega arith)
  all_frames d (piece ∷ []) e h = rw (first_frame d piece e) (ground (arith, append-nil piece))
  all_frames d (piece ∷ next ∷ pieces) e h =
      rw (first_frame d piece e) (ground (arith, later_frames 0 piece next pieces (omega arith)))

completed_with_crc :
    (dst src last : ℕ) (bytes : List ℕ)
    → decode_completed (receiving dst src last last (with_crc bytes)) ≡ some (ddp src dst bytes 1)
unfolding decode_completed
completed_with_crc dst src last bytes =
    ground (arith, length-with_crc bytes, take-with_crc bytes, crc16-with_crc bytes)

-- The frames of a DDP message of version 1, with addresses below 128 and at most 61 bytes, given
-- in order to a decoder of the destination in any state, report exactly that message at the last
-- frame, and nothing before.
pub decode-encode_ddp_v1 :
    (d : DdpDecoderV1) (src : ℕ) (bytes : List ℕ)
    → src < 128
    → d.dst_addr < 128
    → length bytes ≤ 61
    → (decode_all d (encode_ddp_v1 src d.dst_addr bytes)).1
      ≡ replicate ((length bytes + 1) / 8) none ++ some (ddp src d.dst_addr bytes 1) ∷ []
unfolding encode_ddp_v1
decode-encode_ddp_v1 d src bytes hs hd hl =
    let pieces = chunks 8 (with_crc bytes) in
    let count : length pieces ≡ suc ((length bytes + 1) / 8) =
      omega (arith, length-chunks (with_crc bytes), length-with_crc bytes) in
    let last : length pieces - 1 ≡ (length bytes + 1) / 8 = omega arith in
    rw (
      last,
      all_frames src d.dst_addr _ hs hd (omega arith) d pieces refl count,
      join-chunks 8 (with_crc bytes) (omega arith),
      completed_with_crc,
    )
