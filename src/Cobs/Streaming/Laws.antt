-- ===== src/Cobs/Streaming/Laws.antt =====
-- Which frames the stream decoders deliver.
use comsrv.Base.{
  ℕ, suc, ◌+◌, ◌≤◌, ◌≡◌, refl, ◌∙◌, Bool, true, false, List, [], ◌∷◌, ◌++◌, none, some, All,
  append-nil, append_assoc, length, length-append, ltb, leb, arith, if◌then◌else◌, Bool-cases,
  Option-cases, ◌⊎◌, inl, inr,
}
use comsrv.Cobs.{cobs_encode, cobs_decode}
use comsrv.Cobs.Blocks.{stuffed, cobs_encode-stuffed}
use comsrv.Cobs.RoundTrip.{cobs_decode-cobs_encode}
use comsrv.Cobs.Frame.{NonZero, stuffed-NonZero, cobs_decode-stuffed}
use comsrv.Cobs.Streaming.{StreamingCobsDecoder, new, round, next, frames, push, decode_stream}

abbrev reading : ℕ → List ℕ → StreamingCobsDecoder
reading max buf = record { buf = buf; max_length = max; restart = false }

abbrev lost : ℕ → StreamingCobsDecoder
lost max = record { buf = []; max_length = max; restart = true }

-- The rest of a frame that was too long.
lost_rest :
    (max : ℕ) (body rest : List ℕ)
    → All NonZero body
    → frames (lost max) (body ++ 0 ∷ rest) ≡ frames (new max) rest
unfolding frames new
lost_rest max [] rest nz = unfold round in refl
lost_rest max (x ∷ body) rest (nx, nz) =
    let same : round (lost max) x ≡ (lost max, none) = unfold round in ground arith in
    rw (same, frames) (lost_rest max body rest nz)

-- A decoder that has read `buf` of a frame gets the rest of it.
frame_rest :
    (max : ℕ) (buf body rest : List ℕ)
    → length buf ≤ max + 1
    → All NonZero body
    → frames (reading max buf) (body ++ 0 ∷ rest) ≡ (
      (frames (new max) rest).0,
      if leb (length buf + length body) (max + 1)
          then cobs_decode (buf ++ body) ∷ (frames (new max) rest).1
          else (frames (new max) rest).1,
    )
unfolding frames new
frame_rest max buf [] rest h nz = unfold round in ground (arith, append-nil buf)
frame_rest max buf (x ∷ body) rest h (nx, nz) = elim (Bool-cases (ltb max (length buf))) [
  | inl full ↦
      let drop_it : round (reading max buf) x ≡ (lost max, none) = unfold round in ground arith in
      let too_long : leb (length buf + suc (length body)) (max + 1) ≡ false = ground arith in
      rw (drop_it, too_long, frames) (ground (arith, lost_rest max body rest nz))
  | inr room ↦
      let keep : round (reading max buf) x ≡ (reading max (buf ++ x ∷ []), none) =
        unfold round in ground arith in
      let len = length-append buf (x ∷ []) in
      let later = frame_rest max (buf ++ x ∷ []) body rest (ground (arith, len)) nz in
      rw (keep, frames) (ground (arith, later, len, append_assoc buf (x ∷ []) body))
]

-- The frames of some messages, one behind the other.
unfoldable pub encode_all : List (List ℕ) → List ℕ
encode_all [] = []
encode_all (msg ∷ msgs) = cobs_encode msg ++ encode_all msgs

-- Messages whose frame, without its closing zero, has at most `max_length + 1` bytes.
unfoldable pub short_enough : ℕ → List (List ℕ) → List (List ℕ)
short_enough max [] = []
short_enough max (msg ∷ msgs) =
    let rest = short_enough max msgs in
    if leb (length (cobs_encode msg)) (max + 2) then msg ∷ rest else rest

-- From a stream of frames a new decoder delivers those messages, in order, whose frame is not too
-- long, drops the others, and ends as it was made.
pub frames-encode_all :
    (max : ℕ) (msgs : List (List ℕ))
    → frames (new max) (encode_all msgs) ≡ (new max, short_enough max msgs)
unfolding encode_all short_enough
frames-encode_all max [] = unfold frames in refl
frames-encode_all max (msg ∷ msgs) =
    let body = stuffed [] msg in
    let one = frame_rest max [] body (encode_all msgs) (omega arith) (stuffed-NonZero msg) in
    let start : new max ≡ reading max [] = unfold new in refl in
    rw (cobs_encode-stuffed msg, append_assoc body (0 ∷ []) (encode_all msgs))
      (rw start (
        ground (
          arith,
          start,
          one,
          frames-encode_all max msgs,
          cobs_decode-stuffed msg,
          length-append body (0 ∷ []),
        )))

-- `CobsDecoder`: the bytes of a frame go to the buffer, and its zero makes it a message.
decode_stream_rest :
    (buf body rest : List ℕ)
    → All NonZero body
    → decode_stream buf (body ++ 0 ∷ rest) ≡ (
      (decode_stream [] rest).0,
      cobs_decode ((buf ++ body) ++ 0 ∷ []) ∷ (decode_stream [] rest).1,
    )
unfolding decode_stream
decode_stream_rest buf [] rest nz = ground (arith, append-nil buf)
decode_stream_rest buf (x ∷ body) rest (nx, nz) =
    let keep : push buf x ≡ (buf ++ x ∷ [], none) = ground arith in
    rw (keep, decode_stream)
      (ground
        (arith, decode_stream_rest (buf ++ x ∷ []) body rest nz, append_assoc buf (x ∷ []) body))

-- From a stream of frames every message is broadcast, in order, nothing else is, and the buffer
-- ends empty.
pub decode_stream-encode_all :
    (msgs : List (List ℕ)) → decode_stream [] (encode_all msgs) ≡ ([], msgs)
unfolding encode_all
decode_stream-encode_all [] = unfold decode_stream in refl
decode_stream-encode_all (msg ∷ msgs) =
    let body = stuffed [] msg in
    let one = decode_stream_rest [] body (encode_all msgs) (stuffed-NonZero msg) in
    let back = rw (cobs_encode-stuffed msg) at (cobs_decode-cobs_encode msg) in
    rw (cobs_encode-stuffed msg, append_assoc body (0 ∷ []) (encode_all msgs))
      (ground (arith, one, decode_stream-encode_all msgs, back))

-- What holds of a decoder between two bytes.
pub record IsConsistent (d : StreamingCobsDecoder) : Type 0 where
  pub cleared : d.restart ≡ true → d.buf ≡ []
  pub bounded : length d.buf ≤ d.max_length + 1

pub new-IsConsistent : (max : ℕ) → IsConsistent (new max)
unfolding new
new-IsConsistent max = record { cleared = λ e. refl; bounded = omega arith }

-- Every byte keeps a decoder consistent, that is its buffer holds at most `max_length + 1` bytes
-- and is empty while it restarts, and keeps its `max_length`.
pub round-IsConsistent :
    (d : StreamingCobsDecoder) (x : ℕ)
    → IsConsistent d
    → IsConsistent (round d x).0 × ((round d x).0.max_length ≡ d.max_length)
unfolding round
round-IsConsistent d x v = ground (arith, length-append d.buf (x ∷ []))

resync :
    (max : ℕ) (buf : List ℕ) (restart : Bool) (noise : List ℕ) (msgs : List (List ℕ))
    → (restart ≡ true → buf ≡ [])
    → length buf ≤ max + 1
    → All NonZero noise
    → (lost_one : List (List ℕ)) × (length lost_one ≤ 1)
      × (frames
            (record { buf = buf; max_length = max; restart = restart })
            (noise ++ 0 ∷ encode_all msgs)
          ≡ (new max, lost_one ++ short_enough max msgs))
resync max buf true noise msgs cleared h nz =
    let tail = lost_rest max noise (encode_all msgs) nz ∙ frames-encode_all max msgs in
    ([], omega arith, rw (cleared refl) tail)
resync max buf false noise msgs cleared h nz =
    let tail = frame_rest max buf noise (encode_all msgs) h nz in
    let one =
      if leb (length buf + length noise) (max + 1) then cobs_decode (buf ++ noise) ∷ [] else [] in
    (one, ground arith, ground (arith, tail, frames-encode_all max msgs))

-- After any bytes without zeros, and a zero, a consistent decoder in any state is as good as new:
-- what was on the line makes one frame at most, every message whose frame is short enough is then
-- delivered in order, and the decoder ends as it was made.
pub frames_resync :
    (d : StreamingCobsDecoder) (noise : List ℕ) (msgs : List (List ℕ))
    → IsConsistent d
    → All NonZero noise
    → (lost_one : List (List ℕ)) × (length lost_one ≤ 1)
      × (frames d (noise ++ 0 ∷ encode_all msgs)
          ≡ (new d.max_length, lost_one ++ short_enough d.max_length msgs))
frames_resync d noise msgs v nz =
    resync d.max_length d.buf d.restart noise msgs v.cleared v.bounded nz

-- `frames` is what calling `next` again and again gives.
pub frames-next :
    (d : StreamingCobsDecoder) (xs : List ℕ)
    → ((next d xs).1 ≡ none) × (frames d xs ≡ ((next d xs).0, []))
      ⊎ ((frame : List ℕ) × (rest : List ℕ) × ((next d xs).1 ≡ some (frame, rest))
          × (frames d xs ≡ ((frames (next d xs).0 rest).0, frame ∷ (frames (next d xs).0 rest).1)))
unfolding frames next
frames-next d [] = inl (refl, refl)
frames-next d (x ∷ xs) = elim (Option-cases (round d x).1) [
  | inl e ↦ ground (arith, e, frames-next (round d x).0 xs)
  | inr (frame, e) ↦ inr (frame, xs, rw (e, next), ground (arith, e))
]
