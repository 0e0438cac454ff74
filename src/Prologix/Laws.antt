-- ===== src/Prologix/Laws.antt =====
-- A query over a Prologix controller, and what its requests leave on the line.
use comsrv.Base.{
  ℕ, zero, suc, ◌+◌, ◌<◌, ◌≡◌, refl, Bool, true, false, List, [], ◌∷◌, ◌++◌, append-nil,
  append_assoc, Option, none, some, All, length, take_all, ◌==◌, arith, ap, ◌≢◌, ◌≤◌, length-append,
}
use comsrv.Protocol.Error.{ErrorKind}
use comsrv.Protocol.Scpi.{query_string, string}
use comsrv.Stream.{Stream, ok}
use comsrv.Stream.Laws.{Waits, read_all-Waits, read_u8-incoming, available, TakesAll}
use comsrv.Prologix.{
  read_text, addr_set, to_line, write_part, write, write_prologix, read_reply, decoded,
  read_prologix, handle_scpi, handle_prologix_request,
}

module _ (is_utf8 : List ℕ → Bool) (late : ℕ → Bool) (room : List ℕ → Stream → ℕ) where
  -- What has been written.
  abbrev pub written : List ℕ → Stream → Stream
  written bytes s = record s { outgoing = s.outgoing ++ bytes }

  write_at :
      (x : Option ErrorKind) (msg : List ℕ) (s : Stream)
      → TakesAll room
      → x ≡ none
      → write_part is_utf8 late room x msg s ≡ (ok tt, written msg s)
  unfolding write_part
  write_at none msg s all e = rw (take_all (room msg s) msg (all msg s))
  write_at (some kind) msg s all e = absurd (ground arith)

  pub write_none :
      (msg : List ℕ) (s : Stream)
      → TakesAll room
      → s.write_error ≡ none
      → write is_utf8 late room msg s ≡ (ok tt, written msg s)
  unfolding write
  write_none msg s all e = write_at s.write_error msg s all e

  -- No byte of the reply ends the line.
  abbrev pub IsText : ℕ → Type 0
  IsText b = b ≢ 10

  read_reply_text :
      (fuel : ℕ) (ret reply rest : List ℕ) (s : Stream)
      → s.pending ≡ []
      → s.incoming ≡ reply ++ 10 ∷ rest
      → length reply < fuel
      → All IsText reply
      → ((n : ℕ) → n < length ret + length reply + 1 → late n ≡ false)
      → read_reply is_utf8 late room fuel ret s ≡ (ok (ret ++ reply), record s { incoming = rest })
  unfolding read_reply
  read_reply_text zero ret reply rest s p e f t l = absurd (omega arith)
  read_reply_text (suc fuel) ret [] rest s p e f t l =
      rw (read_u8-incoming 10 rest s p e, append-nil ret)
  read_reply_text (suc fuel) ret (b ∷ reply) rest s p e f (t, ts) l =
      let more : (b == 10) ≡ false = ground arith in
      let in_time : late (length ret + 1) ≡ false = l (length ret + 1) (omega arith) in
      let s' : Stream = record s { incoming = reply ++ 10 ∷ rest } in
      rw (
        read_u8-incoming b (reply ++ 10 ∷ rest) s p e,
        more,
        in_time,
        read_reply_text fuel (ret ++ (b ∷ [])) reply rest s' p refl (omega arith) ts
            (λ n h. l n (omega (arith, length-append ret (b ∷ [])))),
        append_assoc ret (b ∷ []) reply,
      )

  -- On a connection that has to wait and takes writes, and where one call of `write` takes all it is
  -- given, a query drops what had arrived, sets the address, sends the text as a line, asks for the
  -- reply, and returns the UTF-8 bytes before its first line feed, if its time is never over; what
  -- follows is left.
  pub query_string-reply :
      (addr : ℕ) (text reply rest : List ℕ) (s : Stream)
      → TakesAll room
      → Waits s
      → s.write_error ≡ none
      → s.incoming ≡ reply ++ 10 ∷ rest
      → All IsText reply
      → is_utf8 reply ≡ true
      → ((n : ℕ) → n ≤ length reply → late n ≡ false)
      → handle_prologix_request is_utf8 late room addr (query_string text) s ≡ (
        ok (string reply),
        record s {
          pending = [];
          incoming = rest;
          outgoing = ((s.outgoing ++ addr_set addr) ++ to_line text) ++ read_text;
        },
      )
  unfolding handle_prologix_request handle_scpi write_prologix read_prologix decoded
  query_string-reply addr text reply rest s all w we e ts u l =
      let s1 : Stream = record s { pending = [] } in
      let s2 = written (addr_set addr) s1 in
      let s3 = written (to_line text) s2 in
      let s4 = written read_text s3 in
      rw (
        read_all-Waits s w,
        write_none (addr_set addr) s1 all we,
        write_none (to_line text) s2 all we,
        write_none read_text s3 all we,
        read_reply_text (available s4 + 1) [] reply rest s4 refl e
            (omega (arith, ap length e, length-append reply (10 ∷ rest))) ts
            (λ n h. l n (omega arith)),
        u,
      )
