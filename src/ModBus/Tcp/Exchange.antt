-- ===== src/ModBus/Tcp/Exchange.antt =====
-- `TcpHandler::handle` against the replies of a server.
use comsrv.Base.{
  ℕ, ◌+◌, ◌-◌, ◌*◌, ◌/◌, ◌%◌, ◌≤◌, ◌<◌, ◌≡◌, ◌≢◌, ◌⊎◌, inl, inr, refl, sym, ap, ◌∙◌, false, List,
  [], ◌∷◌, ◌++◌, none, length, length-append, take-append, drop-append, get_or, ltb, arith,
}
use comsrv.Protocol.Error.{Result, protocol_error}
use comsrv.Stream.{Stream, err, lift, and_then, read_exact}
use comsrv.Stream.Laws.{read_exact-append, write_all_none}
use comsrv.ModBus.{FunctionCode, TransactionInfo}
use comsrv.ModBus.Registers.{to_be_bytes, from_be_bytes}
use comsrv.ModBus.Rtu.Exchange.{bit_or_exception}
use comsrv.ModBus.Tcp.{
  check_tcp_header, read_tcp_frame, request_length, sized_request, parse_data, parse_reply,
  exchange, handle,
}

-- The header of a reply with `n` bytes behind it.
abbrev pub mbap : TransactionInfo → ℕ → ℕ → List ℕ
mbap t function_code n =
    to_be_bytes t.transaction_id
    ++ 0 ∷ 0 ∷ (to_be_bytes (n + 2) ++ t.station_address ∷ function_code ∷ [])

module _ {A : Type 0} (f : FunctionCode A) (t : TransactionInfo) where
  pub record IsReady (s : Stream) (reply : List ℕ) : Type 0 where
    pub fits : request_length f t ≤ 65535
    pub id-lt : t.transaction_id < 65536
    pub code-lt : f.function_code < 128
    pub drained : s.pending ≡ []
    pub writable : s.write_error ≡ none
    pub comes : s.incoming ≡ reply

  abbrev pub after : Stream → List ℕ → Stream
  after s rest = record s { incoming = rest; outgoing = s.outgoing ++ sized_request f t }

  own_header :
      (n : ℕ) (s : Stream)
      → t.transaction_id < 65536
      → f.function_code < 128
      → n < 65534
      → check_tcp_header t f.function_code (mbap t f.function_code n) s ≡ read_exact n s
  unfolding check_tcp_header
  own_header n s ht hf hn =
      let id : t.transaction_id / 256 % 256 * 256 + t.transaction_id % 256 ≡ t.transaction_id =
        omega arith in
      let len : (n + 2) / 256 % 256 * 256 + (n + 2) % 256 ≡ n + 2 = omega arith in
      let n_back : n + 2 - 2 ≡ n = omega arith in
      ground (arith, bit_or_exception f.function_code hf)

  handle_header :
      (header rest : List ℕ) (s : Stream)
      → IsReady s (header ++ rest)
      → length header ≡ 8
      → handle f t s
        ≡ and_then (check_tcp_header t f.function_code header (after s rest)) (parse_reply f t)
  unfolding handle exchange read_tcp_frame
  handle_header header rest s h e =
      let fits : ltb 65535 (request_length f t) ≡ false = ground (arith, h.fits) in
      let written = record s { outgoing = s.outgoing ++ sized_request f t } in
      rw (
        fits,
        write_all_none (sized_request f t) s h.writable,
        sym e,
        read_exact-append header rest written h.drained h.comes,
      )

  parse_reply-append :
      (fun_header payload : List ℕ) (n : ℕ) (s : Stream)
      → length fun_header ≡ f.get_header_length
      → f.get_data_length_from_header fun_header ≡ Result.ok n
      → n ≤ length payload
      → parse_reply f t (fun_header ++ payload) s ≡ lift (f.parse_frame payload) s
  unfolding parse_reply parse_data
  parse_reply-append fun_header payload n s hl dl hn =
      let l = length-append fun_header payload in
      let long : ltb (length (fun_header ++ payload)) f.get_header_length ≡ false =
        ground (arith, l) in
      let enough : ltb (length (fun_header ++ payload)) (n + f.get_header_length) ≡ false =
        ground (arith, l) in
      rw (
        long,
        take-append f.get_header_length fun_header payload (sym hl),
        dl,
        enough,
        drop-append f.get_header_length fun_header payload (sym hl),
      )

  -- On a connection that is ready for a request, a reply with this transaction, station and
  -- function code, and the length of what follows, gives what `parse_frame` makes of the payload
  -- behind the header of the function code, if the payload has at least the length that this
  -- header tells. The request has been written, and what follows the reply is left.
  pub handle_tcp_reply :
      (fun_header payload rest : List ℕ) (n : ℕ) (s : Stream)
      → IsReady s (
          mbap t f.function_code (length (fun_header ++ payload))
          ++ ((fun_header ++ payload) ++ rest))
      → length (fun_header ++ payload) < 65534
      → length fun_header ≡ f.get_header_length
      → f.get_data_length_from_header fun_header ≡ Result.ok n
      → n ≤ length payload
      → handle f t s ≡ lift (f.parse_frame payload) (after s rest)
  handle_tcp_reply fun_header payload rest n s h hb hl dl hn =
      let reply = fun_header ++ payload in
      let s1 = after s (reply ++ rest) in
      handle_header (mbap t f.function_code (length reply)) (reply ++ rest) s h refl
      ∙ rw
          (
            own_header (length reply) s1 h.id-lt h.code-lt hb,
            read_exact-append reply rest s1 h.drained refl,
          )
          (parse_reply-append fun_header payload n (after s rest) hl dl hn)

  -- On a connection that is ready for a request, a reply with another transaction id or of
  -- another station is a protocol error after its header of 8 bytes.
  pub handle_tcp_stranger :
      (header rest : List ℕ) (s : Stream)
      → IsReady s (header ++ rest)
      → length header ≡ 8
      → (from_be_bytes (get_or header 0 0) (get_or header 1 0) ≢ t.transaction_id)
        ⊎ (get_or header 6 0 ≢ t.station_address)
      → handle f t s ≡ (err protocol_error, after s rest)
  handle_tcp_stranger header rest s h e d =
      handle_header header rest s h e ∙ ap (λ o. and_then o (parse_reply f t)) (refused d)
    where
      refused :
          (from_be_bytes (get_or header 0 0) (get_or header 1 0) ≢ t.transaction_id)
            ⊎ (get_or header 6 0 ≢ t.station_address)
          → check_tcp_header t f.function_code header (after s rest)
            ≡ (err protocol_error, after s rest)
      refused (inl d) = unfold check_tcp_header in ground arith
      refused (inr d) = unfold check_tcp_header in ground arith
