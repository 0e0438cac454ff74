-- ===== src/ModBus/Rtu/Exchange.antt =====
-- `RtuHandler::handle` against the replies of a server.
use comsrv.Base.{
  ℕ, ◌+◌, ◌≤◌, ◌<◌, ◌≡◌, ◌≢◌, ◌⊎◌, inl, inr, refl, sym, ap, subst, ◌∙◌, false, List, [], ◌∷◌, ◌++◌,
  append_assoc, none, length, length-append, take-append, All, IsByte, bit_or, ltb, arith,
  to_le_bytes,
}
use comsrv.Base.Bits.{bit_or_fields, bit_or_comm}
use comsrv.Protocol.Error.{Result, argument_error, protocol_error}
use comsrv.Stream.{Stream, err, lift}
use comsrv.Stream.Laws.{read_u8-incoming, read_exact-append, write_all_none}
use comsrv.ModBus.{FunctionCode, TransactionInfo}
use comsrv.ModBus.Crc.{crc, with_crc, crc-with_crc}
use comsrv.ModBus.Rtu.{
  exception_error, read_exception, request_body, check_crc, read_reply, check_header, exchange,
  handle,
}

-- The function codes of requests are below 0x80.
pub bit_or_exception : (c : ℕ) → c < 128 → bit_or 0x80 c ≡ 128 + c
bit_or_exception c h = bit_or_comm 128 c ∙ bit_or_fields 7 1 c h ∙ omega arith

module _ {A : Type 0} (f : FunctionCode A) (t : TransactionInfo) where
  -- The request fits, its function code is below 0x80, nothing has arrived, writes succeed, and
  -- `reply` comes.
  pub record IsReady (s : Stream) (reply : List ℕ) : Type 0 where
    pub fits : length (request_body f t) ≤ 255
    pub code-lt : f.function_code < 128
    pub drained : s.pending ≡ []
    pub writable : s.write_error ≡ none
    pub comes : s.incoming ≡ reply

  -- The request has been written, and `rest` is left.
  abbrev pub after : Stream → List ℕ → Stream
  after s rest = record s { incoming = rest; outgoing = s.outgoing ++ with_crc (request_body f t) }

  handle_header :
      (a b : ℕ) (rest : List ℕ) (s : Stream)
      → IsReady s (a ∷ b ∷ rest)
      → handle f t s ≡ check_header f t (a ∷ b ∷ []) (after s rest)
  unfolding handle exchange
  handle_header a b rest s h =
      let fits : ltb 255 (length (request_body f t)) ≡ false = ground (arith, h.fits) in
      let written = record s { outgoing = s.outgoing ++ with_crc (request_body f t) } in
      rw (
        fits,
        write_all_none (with_crc (request_body f t)) s h.writable,
        read_exact-append (a ∷ b ∷ []) rest written h.drained h.comes,
      )

  -- On a connection that is ready for a request, a reply of another station, or with a function
  -- code that is neither the requested one nor its exception, is a protocol error after two
  -- bytes.
  pub handle_stranger :
      (a b : ℕ) (rest : List ℕ) (s : Stream)
      → IsReady s (a ∷ b ∷ rest)
      → (a ≢ t.station_address) ⊎ ((b ≢ f.function_code) × (b ≢ 0x80 + f.function_code))
      → handle f t s ≡ (err protocol_error, after s rest)
  unfolding check_header
  handle_stranger a b rest s h (inl d) = handle_header a b rest s h ∙ ground arith
  handle_stranger a b rest s h (inr (d, d')) =
      handle_header a b rest s h ∙ ground (arith, bit_or_exception f.function_code h.code-lt)

  -- On a connection that is ready for a request, a reply of this station whose function code has
  -- the bit 0x80 set is the error that stands for the exception code behind it, and no more bytes
  -- are read.
  pub handle_exception :
      (code : ℕ) (rest : List ℕ) (s : Stream)
      → IsReady s (t.station_address ∷ (0x80 + f.function_code) ∷ code ∷ rest)
      → handle f t s ≡ (err (exception_error code), after s rest)
  unfolding check_header read_exception
  handle_exception code rest s h =
      let s1 = after s (code ∷ rest) in
      let e : check_header f t (t.station_address ∷ (0x80 + f.function_code) ∷ []) s1
          ≡ read_exception s1 =
        ground (arith, bit_or_exception f.function_code h.code-lt) in
      handle_header t.station_address (0x80 + f.function_code) (code ∷ rest) s h
      ∙ e
      ∙ rw (read_u8-incoming code rest s1 h.drained refl)

  handle_body :
      (fun_header body rest : List ℕ) (n : ℕ) (s : Stream)
      → IsReady s (t.station_address ∷ f.function_code ∷ fun_header ++ (body ++ rest))
      → length fun_header ≡ f.get_header_length
      → f.get_data_length_from_header fun_header ≡ Result.ok n
      → length body ≡ n + 2
      → handle f t s
        ≡ check_crc f t (t.station_address ∷ f.function_code ∷ fun_header) n body (after s rest)
  unfolding check_header read_reply
  handle_body fun_header body rest n s h hl dl bl =
      let s1 = after s (fun_header ++ (body ++ rest)) in
      let s2 = after s (body ++ rest) in
      let e : check_header f t (t.station_address ∷ f.function_code ∷ []) s1
          ≡ read_reply f t (t.station_address ∷ f.function_code ∷ []) s1 =
        ground (arith, bit_or_exception f.function_code h.code-lt) in
      handle_header t.station_address f.function_code (fun_header ++ (body ++ rest)) s h
      ∙ e
      ∙ rw (
        sym hl,
        read_exact-append fun_header (body ++ rest) s1 h.drained refl,
        dl,
        sym bl,
        read_exact-append body rest s2 h.drained refl,
      )

  -- What a server sends before the checksum.
  abbrev pub reply_body : List ℕ → List ℕ → List ℕ
  reply_body fun_header payload = t.station_address ∷ f.function_code ∷ fun_header ++ payload

  -- On a connection that is ready for a request, a reply of this station and function code, of
  -- bytes, with its checksum behind it, whose header tells the length of the payload, gives what
  -- `parse_frame` makes of exactly that payload. The request with its checksum has been written,
  -- and what follows the reply is left.
  pub handle_reply :
      (fun_header payload rest : List ℕ) (s : Stream)
      → IsReady s (with_crc (reply_body fun_header payload) ++ rest)
      → All IsByte (reply_body fun_header payload)
      → length fun_header ≡ f.get_header_length
      → f.get_data_length_from_header fun_header ≡ Result.ok (length payload)
      → handle f t s ≡ lift (f.parse_frame payload) (after s rest)
  unfolding check_crc to_le_bytes
  handle_reply fun_header payload rest s h bytes hl dl =
      let checksum = to_le_bytes 2 (crc (reply_body fun_header payload)) in
      let body = payload ++ checksum in
      let whole : t.station_address ∷ f.function_code ∷ fun_header ++ body
          ≡ with_crc (reply_body fun_header payload) =
        ap (λ (l : List ℕ). t.station_address ∷ f.function_code ∷ l)
          (sym (append_assoc fun_header payload checksum)) in
      let split : with_crc (reply_body fun_header payload) ++ rest
          ≡ t.station_address ∷ f.function_code ∷ fun_header ++ (body ++ rest) =
        simp append_assoc in
      let ready : IsReady s (t.station_address ∷ f.function_code ∷ fun_header ++ (body ++ rest)) =
        subst (λ l. IsReady s l) split h in
      let is_zero : crc (t.station_address ∷ f.function_code ∷ fun_header ++ body) ≡ 0 =
        ap crc whole ∙ crc-with_crc (reply_body fun_header payload) bytes in
      handle_body fun_header body rest (length payload) s ready hl dl
        (length-append payload checksum)
      ∙ rw (is_zero, take-append (length payload) payload checksum refl)

  -- On a connection that is ready for a request, a reply of this station and function code and of
  -- the right length, whose checksum over all bytes is not 0, is a protocol error, and all its
  -- bytes have been taken from the connection.
  pub handle_corrupt :
      (fun_header body rest : List ℕ) (n : ℕ) (s : Stream)
      → IsReady s (t.station_address ∷ f.function_code ∷ fun_header ++ (body ++ rest))
      → length fun_header ≡ f.get_header_length
      → f.get_data_length_from_header fun_header ≡ Result.ok n
      → length body ≡ n + 2
      → crc (t.station_address ∷ f.function_code ∷ fun_header ++ body) ≢ 0
      → handle f t s ≡ (err protocol_error, after s rest)
  unfolding check_crc
  handle_corrupt fun_header body rest n s h hl dl bl bad =
      handle_body fun_header body rest n s h hl dl bl ∙ ground arith

  -- A request that does not fit is refused, and nothing is written.
  pub handle_over_length :
      (s : Stream) → 255 < length (request_body f t) → handle f t s ≡ (err argument_error, s)
  unfolding handle
  handle_over_length s h = ground arith
