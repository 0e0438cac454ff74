-- ===== src/ByteStream/Requests.antt =====
-- `handle` of comsrv/src/protocol/bytestream/mod.rs against a device that answers.
use comsrv.Base.{
  ℕ, ◌≤◌, ◌<◌, ◌≡◌, ◌⊎◌, inl, inr, refl, Bool, true, false, List, [], ◌∷◌, ◌++◌, none, All,
  replicate, ltb, ◌==◌, arith,
}
use comsrv.Protocol.Error.{argument_error, transport, io, unexpected_eof}
use comsrv.Stream.{Stream, ok, err, closed}
use comsrv.Stream.Laws.{Waits, read_all-Waits, read_all_closed, write_all_none}
use comsrv.Cobs.{cobs_encode}
use comsrv.ByteStream.{
  query_line, write_line, read_line, cobs_query, bytes, string, utf8_char, check_term, ignore_error,
  query_frame, from_utf8, handle,
}
use comsrv.ByteStream.Laws.{
  IsNot, read_to_term_loop-line, read_frame-cobs_encode, read_to_term_loop_closed,
  read_frame_closed,
}

-- What has arrived before is dropped, and the request has been written.
abbrev pub answered : Stream → List ℕ → List ℕ → Stream
answered s request rest = record s {
  pending = [];
  incoming = rest;
  outgoing = s.outgoing ++ request;
}

check_term_ok : (term : ℕ) (s : Stream) → 1 ≤ term → term ≤ 128 → check_term term s ≡ (ok tt, s)
unfolding check_term
check_term_ok term s h k = ground arith

module _ (is_utf8 : List ℕ → Bool) (transaction_id : ℕ) where
  -- On a connection that has to wait and takes writes, a line query with an end between 1 and 127
  -- drops what had arrived, sends the line and its end, and returns the UTF-8 bytes before the
  -- first end; what follows is left.
  pub query_line-reply :
      (line reply rest : List ℕ) (term : ℕ) (s : Stream)
      → Waits s
      → s.write_error ≡ none
      → s.incoming ≡ reply ++ term ∷ rest
      → 1 ≤ term
      → term < 128
      → All (IsNot term) reply
      → is_utf8 reply ≡ true
      → handle is_utf8 transaction_id (query_line line term) s
        ≡ (ok (string reply), answered s (line ++ term ∷ []) rest)
  unfolding handle utf8_char from_utf8
  query_line-reply line reply rest term s w we e h k a u =
      let s1 = record s { pending = [] } in
      let s2 = answered s (line ++ term ∷ []) s.incoming in
      let small : ltb term 128 ≡ true = ground arith in
      rw (
        read_all-Waits s w,
        check_term_ok term s1 h (omega arith),
        small,
        write_all_none (line ++ term ∷ []) s1 we,
        read_to_term_loop-line term reply rest s2 refl e a,
        u,
      )

  -- On a connection that has to wait and takes writes, a COBS query drops what had arrived, sends
  -- the frame of the request, skips the zeros before the reply's frame, and returns exactly the
  -- reply that was encoded; what follows its frame is left.
  pub cobs_query-reply :
      (k : ℕ) (request reply rest : List ℕ) (s : Stream)
      → Waits s
      → s.write_error ≡ none
      → s.incoming ≡ replicate k 0 ++ (cobs_encode reply ++ rest)
      → handle is_utf8 transaction_id (cobs_query request) s
        ≡ (ok (bytes reply), answered s (cobs_encode request) rest)
  unfolding handle query_frame ignore_error
  cobs_query-reply k request reply rest s w we e =
      let s1 = record s { pending = [] } in
      let s2 = answered s (cobs_encode request) s.incoming in
      rw (
        read_all-Waits s w,
        read_all-Waits s1 w,
        write_all_none (cobs_encode request) s1 we,
        read_frame-cobs_encode k reply rest s2 refl e,
      )

  -- With the end 0, or one above 128, writing a line and reading one are argument errors, and the
  -- connection is as it was.
  pub write_line-term :
      (line : List ℕ) (term : ℕ) (s : Stream)
      → (term ≡ 0) ⊎ (128 < term)
      → (handle is_utf8 transaction_id (write_line line term) s ≡ (err argument_error, s))
        × (handle is_utf8 transaction_id (read_line term) s ≡ (err argument_error, s))
  unfolding handle check_term
  write_line-term line term s (inl e) = (rw e, rw e)
  write_line-term line term s (inr h) =
      let big : ltb 128 term ≡ true = ground arith in
      let not_zero : (term == 0) ≡ false = ground arith in (rw (big, not_zero), rw (big, not_zero))

  -- On a connection that the peer has closed, with no byte still to come, and that takes writes, a
  -- line query with an end between 1 and 127 and a COBS query return: they fail with the error of
  -- the transport that the stream has ended. What had arrived is dropped, and the request has been
  -- written.
  pub query_closed :
      (line request : List ℕ) (term : ℕ) (s : Stream)
      → s.incoming ≡ []
      → s.ending ≡ closed
      → s.write_error ≡ none
      → 1 ≤ term
      → term < 128
      → (handle is_utf8 transaction_id (query_line line term) s
          ≡ (err (transport (io unexpected_eof)), answered s (line ++ term ∷ []) []))
        × (handle is_utf8 transaction_id (cobs_query request) s
            ≡ (err (transport (io unexpected_eof)), answered s (cobs_encode request) []))
  unfolding handle utf8_char query_frame ignore_error
  query_closed line request term s i c we h k =
      let s1 = record s { pending = [] } in
      let small : ltb term 128 ≡ true = ground arith in
      (
        rw
            (
              read_all_closed s i c,
              check_term_ok term s1 h (omega arith),
              small,
              write_all_none (line ++ term ∷ []) s1 we,
              read_to_term_loop_closed term (answered s (line ++ term ∷ []) s.incoming) refl i c,
              i,
            )
            refl,
        rw
            (
              read_all_closed s i c,
              read_all_closed s1 i c,
              write_all_none (cobs_encode request) s1 we,
              read_frame_closed (answered s (cobs_encode request) s.incoming) refl i c,
              i,
            )
            refl,
      )
