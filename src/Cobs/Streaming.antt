-- ===== src/Cobs/Streaming.antt =====
-- Frames out of a stream of bytes: `StreamingCobsDecoder` of
-- comsrv/src/protocol/bytestream/cobs.rs, and `CobsDecoder` of comsrv/src/protocol/cobs_stream.rs.
pub mod Laws
use comsrv.Base.{
  ℕ, Bool, true, false, List, [], ◌∷◌, ◌++◌, Option, none, some, length, ltb, ◌==◌, if◌then◌else◌,
}
use comsrv.Cobs.{cobs_decode}

-- The stream itself is the list of bytes that `next` reads.
pub record StreamingCobsDecoder : Type 0 where
  pub buf : List ℕ
  pub max_length : ℕ
  pub restart : Bool

unfoldable pub new : ℕ → StreamingCobsDecoder
new max_length = record { buf = []; max_length = max_length; restart = false }

-- One round of the loop of `next`, and the frame that it returns, if it returns.
unfoldable pub round : StreamingCobsDecoder → ℕ → StreamingCobsDecoder × Option (List ℕ)
round d x =
    if x == 0
    then if d.restart
      then (record d { restart = false }, none)
      else (record d { buf = [] }, some (cobs_decode d.buf))
    else if d.restart
    then (d, none)
    else if ltb d.max_length (length d.buf)
    then (record d { buf = []; restart = true }, none)
    else (record d { buf = d.buf ++ x ∷ [] }, none)

-- `next`: a frame and the bytes that are still to come, or `none` at the end of the stream, where
-- `read_u8` fails.
unfoldable pub next :
    StreamingCobsDecoder → List ℕ → StreamingCobsDecoder × Option (List ℕ × List ℕ)
unfolding round
next d [] = (d, none)
next d (x ∷ xs) = elim (round d x).1 [
  | none ↦ next (round d x).0 xs
  | some frame ↦ ((round d x).0, some (frame, xs))
]

prepend : Option (List ℕ) → List (List ℕ) → List (List ℕ)
prepend none frames = frames
prepend (some frame) frames = frame ∷ frames

-- All frames that calls of `next` return until the stream ends.
unfoldable pub frames : StreamingCobsDecoder → List ℕ → StreamingCobsDecoder × List (List ℕ)
unfolding prepend
frames d [] = (d, [])
frames d (x ∷ xs) =
    let (d', found) = round d x in let (d'', later) = frames d' xs in (d'', prepend found later)

-- `CobsDecoder::push`: the buffer after a byte, and the data that it broadcasts.
unfoldable pub push : List ℕ → ℕ → List ℕ × Option (List ℕ)
push buf value =
    let buf' = buf ++ value ∷ [] in
    if value == 0 then ([], some (cobs_decode buf')) else (buf', none)

-- `CobsDecoder::decode_stream` up to the end of the stream: all that it broadcasts.
unfoldable pub decode_stream : List ℕ → List ℕ → List ℕ × List (List ℕ)
unfolding push prepend
decode_stream buf [] = (buf, [])
decode_stream buf (x ∷ xs) =
    let (buf', found) = push buf x in
    let (buf'', later) = decode_stream buf' xs in (buf'', prepend found later)
