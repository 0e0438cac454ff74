-- ===== src/Transport/Tcp/Connection.antt =====
-- What is left of the connection after a byte stream request.
use comsrv.Base.{
  ℕ, ◌+◌, ◌-◌, ◌<◌, ◌≤◌, ◌≡◌, ◌≢◌, refl, ap, ◌∙◌, arith, Bool, true, List, Option, none, some, leb,
}
use comsrv.Protocol.Error.{Error, should_retry}
use comsrv.Stream.{Stream, Outcome, ok, err, hangs}
use comsrv.ByteStream.{
  ByteStreamRequest, ByteStreamResponse, disconnect, handle as handle_byte_stream,
}
use comsrv.Transport.Tcp.{
  Attempt, connected, Handler, TcpResponse, nope, drop_check, TcpOptions, bytes, set_options_of,
  connect_tcp_stream, check_close, abort_task, options, answer, dispatch, handle_bytestream_request,
  take_stream, keep, goes_on, try_again, exchange, try_once, retry_loop, wrap, handle,
}
use comsrv.Transport.Tcp.Laws.{prepared, check_close-bytes}

-- What a byte stream request at the time `now` leaves. With an answer the connection is open, and a
-- task sends `DropCheck` a tenth of a second after the delay. With an error the connection is closed,
-- and nothing is due. In both cases there is no COBS stream, and at most `attempts` attempts to
-- connect were made.
abbrev pub Leaves {ℓ} : {A : Type ℓ} → (now drop_delay attempts : ℕ) → Outcome A × Handler → Type 0
Leaves now delay n (ok ret, h) =
    (s : Stream) × (h.stream ≡ some s)
    × (h.drop_delay_task ≡ some (delay + 100))
    × (h.cobs_stream ≡ none)
    × (h.attempts ≤ n)
    × (h.drop_delay ≡ delay)
    × (h.last_request ≡ now)
Leaves now delay n (err e, h) =
    (h.stream ≡ none)
    × (h.drop_delay_task ≡ none)
    × (h.cobs_stream ≡ none)
    × (h.attempts ≤ n)
    × (h.drop_delay ≡ delay)
    × (h.last_request ≡ now)
Leaves now delay n (hangs, h) = Unit {0}

module _ (is_utf8 : List ℕ → Bool) (transaction_id : ℕ → ℕ) (network : ℕ → Attempt) where
  options_attempts :
      (opts : Option TcpOptions) (h : Handler) → (set_options_of opts h).attempts ≡ h.attempts
  unfolding set_options_of
  options_attempts none h = refl
  options_attempts (some opts) h = refl

  -- What a byte stream request leaves, and what `DropCheck` makes of it at any later time `t`.
  abbrev pub LeavesUntil : (now drop_delay attempts : ℕ) → Outcome TcpResponse × Handler → Type 0
  LeavesUntil now delay n (ok ret, h) =
      (s : Stream) × (h.stream ≡ some s)
      × (h.drop_delay_task ≡ some (delay + 100))
      × (h.cobs_stream ≡ none)
      × (h.attempts ≤ n)
      × ((t : ℕ)
          → delay < t - now
          → handle is_utf8 transaction_id network t drop_check h
            ≡ (ok nope, record h { stream = none }))
      × ((t : ℕ)
          → t - now ≤ delay
          → handle is_utf8 transaction_id network t drop_check h ≡ (ok nope, h))
  LeavesUntil now delay n (err e, h) =
      (h.stream ≡ none) × (h.drop_delay_task ≡ none) × (h.cobs_stream ≡ none) × (h.attempts ≤ n)
  LeavesUntil now delay n (hangs, h) = ⊥

  options_stream :
      (opts : Option TcpOptions) (h : Handler) → (set_options_of opts h).stream ≡ h.stream
  unfolding set_options_of
  options_stream none h = refl
  options_stream (some opts) h = refl

  reconnect :
      (elapsed : ℕ) (req : ByteStreamRequest) (h : Handler) (s s' fresh fresh' : Stream) (e : Error)
      (ret : ByteStreamResponse)
      → h.stream ≡ some s
      → handle_byte_stream is_utf8 (transaction_id 1) req s ≡ (err e, s')
      → should_retry e ≡ true
      → network h.attempts ≡ connected elapsed fresh
      → elapsed ≤ h.connection_timeout
      → handle_byte_stream is_utf8 (transaction_id 2) req fresh ≡ (ok ret, fresh')
      → retry_loop is_utf8 transaction_id network 4 0 req h ≡ (
        ok ret,
        record h {
          stream = some fresh';
          drop_delay_task = some (h.drop_delay + 100);
          attempts = h.attempts + 1;
        },
      )
  unfolding retry_loop try_once exchange take_stream keep try_again goes_on connect_tcp_stream
  reconnect elapsed req h s s' fresh fresh' e ret a b r n t c =
      let in_time : leb elapsed h.connection_timeout ≡ true = ground arith in
      rw (a, b, keep, r, n, in_time, c)

  -- On an open connection, let a request that is not to disconnect fail with an error to retry, as
  -- on a connection that was reset. If a new connection is made in time and the request is answered
  -- on it, this is the answer, the new connection is kept, and its closing is due after the delay.
  pub handle-reconnect :
      (now elapsed : ℕ) (req : ByteStreamRequest) (opts : Option TcpOptions) (h : Handler)
      (s s' fresh fresh' : Stream) (e : Error) (ret : ByteStreamResponse)
      → req ≢ disconnect
      → h.stream ≡ some s
      → handle_byte_stream is_utf8 (transaction_id 1) req s ≡ (err e, s')
      → should_retry e ≡ true
      → network h.attempts ≡ connected elapsed fresh
      → elapsed ≤ (set_options_of opts h).connection_timeout
      → handle_byte_stream is_utf8 (transaction_id 2) req fresh ≡ (ok ret, fresh')
      → handle is_utf8 transaction_id network now (bytes req opts) h ≡ (
        ok (bytes ret),
        record (prepared now opts h) {
          stream = some fresh';
          drop_delay_task = some ((set_options_of opts h).drop_delay + 100);
          attempts = (prepared now opts h).attempts + 1;
        },
      )
  unfolding handle answer dispatch handle_bytestream_request options check_close abort_task wrap
  handle-reconnect now elapsed req opts h s s' fresh fresh' e ret d a b r n t c =
      let stays : (set_options_of opts h).attempts ≡ h.attempts = options_attempts opts h in
      rw (check_close-bytes now req opts (set_options_of opts h) d) (
        ap wrap (
          reconnect elapsed req (prepared now opts h) s s' fresh fresh' e ret
            (options_stream opts h ∙ a) b r (ap network stays ∙ n) t c))
