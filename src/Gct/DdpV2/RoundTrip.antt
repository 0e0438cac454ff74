-- ===== src/Gct/DdpV2/RoundTrip.antt =====
-- A version 2 DDP message comes back from the frames that `encode_ddp_v2` makes of it.
use native.Mathlib.Decide.{ℕ_discrete}
use comsrv.Base.{
  ℕ, zero, suc, ◌+◌, ◌-◌, ◌/◌, ◌≤◌, ◌<◌, ◌≡◌, refl, ap, subst, ◌∙◌, true, false, List, [], ◌∷◌,
  ◌++◌, Option, none, some, length, replicate, bit_or, bit_and, as_u16, arith, ◌==◌, if◌then◌else◌,
  get_or, drop,
}
use comsrv.Base.Assoc
use comsrv.Base.Bits.{bit_or_fields, bit_and_mask}
use comsrv.Base.Chunks.{chunks, join, join-chunks, length-chunks}
use comsrv.Protocol.MessageId
use comsrv.Protocol.Can.{DataFrame, GctMessage, ddp, msgtype_ddp}
use comsrv.Gct.Crc.{with_crc, crc16-with_crc, length-with_crc, take-with_crc}
use comsrv.Gct.DdpV2.{DdpDecoderV2, decode, store, finish, reset}
use comsrv.Gct.Encode.{frame, v2_frames, encode_ddp_v2}
use comsrv.Gct.DdpV2.Parts.{HasParts, insert-HasParts, collect-HasParts}

-- The decoder after a list of frames, and what it reported at each.
unfoldable pub decode_all : DdpDecoderV2 → List DataFrame → DdpDecoderV2 × List (Option GctMessage)
decode_all d [] = (d, [])
decode_all d (msg ∷ rest) =
    let (d', found) = decode d msg in let (d'', later) = decode_all d' rest in (d'', found ∷ later)

-- What the decoder holds after the first `n` frames of a message that go on.
record Holds (dst src : ℕ) (pieces : List (List ℕ)) (n : ℕ) (d : DdpDecoderV2) : Type 0 where
  dst_kept : d.dst_addr ≡ dst
  src_kept : d.src_start_addr ≡ src
  no_eof : d.eof_received ≡ false
  has_parts : HasParts pieces n d.parts

abbrev v2_type_data : ℕ → ℕ → ℕ
v2_type_data last idx =
    as_u16 (if idx == last then bit_or (bit_and idx 0xFF) 0x400 else bit_and idx 0xFF)

v2_type_data-lem :
    (last idx : ℕ) → idx < 256 → v2_type_data last idx ≡ (if idx == last then idx + 1024 else idx)
v2_type_data-lem last idx h = ground (arith, bit_and_mask 8 idx, bit_or_fields 10 1 idx)

module _ (dst src last : ℕ) (hd : dst < 128) (hs : src < 128) where
  -- A frame of the message, to a decoder that holds the frames before it, reaches `store`.
  decode-store :
      (d : DdpDecoderV2) (pieces : List (List ℕ)) (idx : ℕ) (piece : List ℕ)
      → 0 < idx
      → idx < 256
      → Holds dst src pieces idx d
      → decode d (frame msgtype_ddp src dst (v2_type_data last idx) piece)
        ≡ store d idx (idx == last) piece
  unfolding decode
  decode-store d pieces idx piece pos h hold =
      let y = if idx == last then idx + 1024 else idx in
      let low = bit_and_mask 8 y in
      let flag = bit_and_mask 1 (y / 1024) in
      rw (v2_type_data-lem last idx h)
        (ground (arith, MessageId.new_fields 12 src dst y, low, flag))

  decode-store_first :
      (d : DdpDecoderV2) (piece : List ℕ)
      → d.dst_addr ≡ dst
      → decode d (frame msgtype_ddp src dst (v2_type_data last 0) piece)
        ≡ store (record (reset d) { src_start_addr = src }) 0 (0 == last) piece
  unfolding decode
  decode-store_first d piece e =
      let y = if 0 == last then 0 + 1024 else 0 in
      let low = bit_and_mask 8 y in
      let flag = bit_and_mask 1 (y / 1024) in
      rw (v2_type_data-lem last 0 (omega arith))
        (ground (arith, MessageId.new_fields 12 src dst y, low, flag))

abbrev with_part : DdpDecoderV2 → ℕ → List ℕ → DdpDecoderV2
with_part d idx piece = record d { parts = Assoc.insert ℕ_discrete idx piece d.parts }

store_more :
    (d : DdpDecoderV2) (idx : ℕ) (piece : List ℕ)
    → d.eof_received ≡ false
    → store d idx false piece ≡ (with_part d idx piece, none)
unfolding store
store_more d idx piece e = ground arith

module _ (dst src : ℕ) (pieces : List (List ℕ)) (idx : ℕ) (d : DdpDecoderV2)
    (hold : Holds dst src pieces idx d) where
  with_part-Holds : Holds dst src pieces (idx + 1) (with_part d idx (get_or pieces idx []))
  with_part-Holds = record {
    dst_kept = hold.dst_kept;
    src_kept = hold.src_kept;
    no_eof = hold.no_eof;
    has_parts = insert-HasParts pieces idx d.parts hold.has_parts;
  }

  -- The last frame completes the message.
  store_last :
      (bytes : List ℕ)
      → idx + 1 ≡ length pieces
      → join pieces ≡ with_crc bytes
      → (store d idx true (get_or pieces idx [])).1 ≡ some (ddp src dst bytes 2)
  unfolding store
  store_last bytes e whole =
      let parts = Assoc.insert ℕ_discrete idx (get_or pieces idx []) d.parts in
      let full : HasParts pieces (length pieces) parts =
        subst (λ n. HasParts pieces n parts) e (with_part-Holds.has_parts) in
      rw (collect-HasParts (idx + 1) 0 pieces parts full (omega arith), finish)
        (ground (
          arith,
          whole,
          hold.dst_kept,
          hold.src_kept,
          length-with_crc bytes,
          take-with_crc bytes,
          crc16-with_crc bytes,
        ))

front :
    (idx : ℕ) (pieces rest : List (List ℕ)) (piece : List ℕ)
    → drop idx pieces ≡ piece ∷ rest
    → (get_or pieces idx [] ≡ piece) × (drop (suc idx) pieces ≡ rest)
front zero [] rest piece e = cc
front (suc idx) [] rest piece e = cc
front zero (p ∷ pieces) rest piece e = (cc, cc)
front (suc idx) (p ∷ pieces) rest piece e = front idx pieces rest piece e

module _ (dst src last : ℕ) (hd : dst < 128) (hs : src < 128) (pieces : List (List ℕ))
    (bytes : List ℕ) (count : length pieces ≡ suc last) (small : length pieces ≤ 256)
    (whole : join pieces ≡ with_crc bytes) where
  -- The frames from `idx` on, once the first has come.
  later_frames :
      (idx : ℕ) (d : DdpDecoderV2) (piece : List ℕ) (rest : List (List ℕ))
      → 0 < idx
      → idx + suc (length rest) ≡ length pieces
      → drop idx pieces ≡ piece ∷ rest
      → Holds dst src pieces idx d
      → (decode_all d (v2_frames src dst last idx (piece ∷ rest))).1
        ≡ replicate (length rest) none ++ some (ddp src dst bytes 2) ∷ []
  unfolding decode_all v2_frames
  later_frames idx d piece [] pos e tail hold =
      let (is_piece, _) = front idx pieces [] piece tail in
      let at_last : (idx == last) ≡ true = ground arith in
      rw (
        decode-store dst src last hd hs d pieces idx piece pos (omega arith) hold,
        at_last,
        ← is_piece,
        store_last dst src pieces idx d hold bytes (omega arith) whole,
      )
  later_frames idx d piece (next ∷ rest) pos e tail hold =
      let (is_piece, tail') = front idx pieces (next ∷ rest) piece tail in
      let not_last : (idx == last) ≡ false = ground arith in
      let step : idx + 1 ≡ suc idx = omega arith in
      let d' = with_part d idx (get_or pieces idx []) in
      let later =
        later_frames (idx + 1) d' next rest (omega arith) (omega arith) (rw step tail')
          (with_part-Holds dst src pieces idx d hold) in
      rw
        (
          decode-store dst src last hd hs d pieces idx piece pos (omega arith) hold,
          not_last,
          ← is_piece,
          store_more d idx (get_or pieces idx []) hold.no_eof,
        )
        (ap (◌∷◌ none) later)

  -- The state in which the first frame reaches `store`.
  abbrev fresh : DdpDecoderV2 → DdpDecoderV2
  fresh d = record (reset d) { src_start_addr = src }

  fresh-Holds : (d : DdpDecoderV2) → d.dst_addr ≡ dst → Holds dst src pieces 0 (fresh d)
  unfolding reset
  fresh-Holds d e = record {
    dst_kept = e;
    src_kept = refl;
    no_eof = refl;
    has_parts = λ k h. absurd (omega arith);
  }

  all_frames :
      (d : DdpDecoderV2) (piece : List ℕ) (rest : List (List ℕ))
      → d.dst_addr ≡ dst
      → pieces ≡ piece ∷ rest
      → (decode_all d (v2_frames src dst last 0 (piece ∷ rest))).1
        ≡ replicate last none ++ some (ddp src dst bytes 2) ∷ []
  unfolding decode_all v2_frames
  all_frames d piece [] e split =
      let (is_piece, _) = front 0 pieces [] piece split in
      let at_last : last ≡ 0 = omega (arith, ap length split) in
      rw (
        decode-store_first dst src last hd hs d piece e,
        at_last,
        ← is_piece,
        store_last dst src pieces 0 (fresh d) (fresh-Holds d e) bytes (omega arith) whole,
      )
  all_frames d piece (next ∷ rest) e split =
      let (is_piece, tail) = front 0 pieces (next ∷ rest) piece split in
      let len = ap length split in
      let not_last : (0 == last) ≡ false = ground arith in
      let more : last ≡ suc (length rest) = omega arith in
      let later =
        later_frames 1 (with_part (fresh d) 0 (get_or pieces 0 [])) next rest (omega arith)
          (omega arith) tail (with_part-Holds dst src pieces 0 (fresh d) (fresh-Holds d e)) in
      rw
        (
          decode-store_first dst src last hd hs d piece e,
          not_last,
          ← is_piece,
          store_more (fresh d) 0 (get_or pieces 0 []) (fresh-Holds d e).no_eof,
        )
        (ap (◌∷◌ none) later ∙ rw more)

pieces_of :
    (n : ℕ) (pieces : List (List ℕ))
    → length pieces ≡ suc n
    → (piece : List ℕ) × (rest : List (List ℕ)) × (pieces ≡ piece ∷ rest)
pieces_of n [] h = absurd (omega arith)
pieces_of n (piece ∷ rest) h = (piece, rest, refl)

-- The frames of a DDP message of version 2, with addresses below 128 and 1 to 2045 bytes, given
-- in order to a decoder of the destination in any state, report exactly that message at the last
-- frame, and nothing before.
pub decode-encode_ddp_v2 :
    (d : DdpDecoderV2) (src b : ℕ) (bytes : List ℕ)
    → src < 128
    → d.dst_addr < 128
    → length (b ∷ bytes) ≤ 2045
    → (decode_all d (encode_ddp_v2 src d.dst_addr (b ∷ bytes))).1
      ≡ replicate ((length (b ∷ bytes) + 1) / 8) none
        ++ some (ddp src d.dst_addr (b ∷ bytes) 2) ∷ []
unfolding encode_ddp_v2
decode-encode_ddp_v2 d src b bytes hs hd hl =
    let pieces = chunks 8 (with_crc (b ∷ bytes)) in
    let last = (length (b ∷ bytes) + 1) / 8 in
    let len = length-with_crc (b ∷ bytes) in
    let count : length pieces ≡ suc last =
      omega (arith, length-chunks (with_crc (b ∷ bytes)), len) in
    let at_last : (length (with_crc (b ∷ bytes)) - 1) / 8 ≡ last = omega (arith, len) in
    let (piece, rest, split) = pieces_of last pieces count in
    rw (at_last, split)
      (all_frames d.dst_addr src last hd hs pieces (b ∷ bytes) count (omega arith)
        (join-chunks 8 (with_crc (b ∷ bytes)) (omega arith)) d piece rest refl split)
