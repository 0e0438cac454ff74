-- ===== src/Transport/CobsStream/Laws.antt =====
-- Frames from one COBS stream to another.
use comsrv.Base.{
  ℕ, ◌≡◌, List, [], ◌∷◌, ◌++◌, append_assoc, append-nil, take, take_all, Option, none, some, arith,
}
use comsrv.Protocol.Error.{ErrorKind}
use comsrv.Stream.{Stream}
use comsrv.Stream.Laws.{TakesAll}
use comsrv.Cobs.{cobs_encode}
use comsrv.Cobs.Streaming.{decode_stream}
use comsrv.Cobs.Streaming.Laws.{encode_all, decode_stream-encode_all}
use comsrv.Transport.CobsStream.{write, transmit_next, transmit_frames}

module _ (room : List ℕ → Stream → ℕ) where
  write_none :
      (x : Option ErrorKind) (bytes : List ℕ) (s : Stream)
      → TakesAll room
      → x ≡ none
      → write room x bytes s ≡ (none, record s { outgoing = s.outgoing ++ bytes })
  unfolding write
  write_none none bytes s all e = rw (take_all (room bytes s) bytes (all bytes s))
  write_none (some kind) bytes s all e = absurd (ground arith)

  pub transmit_frames-encode_all :
      (msgs : List (List ℕ)) (s : Stream)
      → TakesAll room
      → s.write_error ≡ none
      → transmit_frames room msgs s ≡ (none, record s { outgoing = s.outgoing ++ encode_all msgs })
  unfolding transmit_frames transmit_next encode_all
  transmit_frames-encode_all [] s all e = rw (append-nil s.outgoing)
  transmit_frames-encode_all (msg ∷ msgs) s all e =
      let s' : Stream = record s { outgoing = s.outgoing ++ cobs_encode msg } in
      rw (
        write_none s.write_error (cobs_encode msg) s all e,
        transmit_frames-encode_all msgs s' all e,
        append_assoc s.outgoing (cobs_encode msg) (encode_all msgs),
      )

  -- Where each call of `write` takes all it is given and the connection takes writes, the frames
  -- that are sent on a COBS stream put bytes on the line, from which a COBS stream at the other end
  -- broadcasts the same messages in the same order, and is left with an empty buffer.
  pub transmit-decode_stream :
      (msgs : List (List ℕ)) (s : Stream)
      → TakesAll room
      → s.write_error ≡ none
      → (line : List ℕ) × (transmit_frames room msgs s
          ≡ (none, record s { outgoing = s.outgoing ++ line }))
        × (decode_stream [] line ≡ ([], msgs))
  transmit-decode_stream msgs s all e =
      (encode_all msgs, transmit_frames-encode_all msgs s all e, decode_stream-encode_all msgs)

  -- If `write` takes fewer bytes of a frame than the frame has, the rest of the frame is lost and
  -- there is no error: what comes later stands right behind the part that was taken.
  pub transmit_frames-short :
      (msg : List ℕ) (msgs : List (List ℕ)) (s : Stream)
      → s.write_error ≡ none
      → transmit_frames room (msg ∷ msgs) s
        ≡ transmit_frames room msgs (record s {
          outgoing = s.outgoing ++ take (room (cobs_encode msg) s) (cobs_encode msg);
        })
  unfolding transmit_frames transmit_next write
  transmit_frames-short msg msgs s e = rw e
