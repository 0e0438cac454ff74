-- ===== src/Transport/Tcp/Laws.antt =====
-- The tries of a byte stream request.
use comsrv.Base.{
  ℕ, zero, suc, ◌+◌, ◌<◌, ◌≡◌, ◌≢◌, ◌⊎◌, inl, inr, refl, ap, arith, Bool, true, false, List, Option,
  none, Bool-cases,
}
use comsrv.Stream.Total.{Settles}
use comsrv.ByteStream.Total.{handle-Settles}
use comsrv.Protocol.Error.{Result, Error, should_retry}
use comsrv.Stream.{Stream, Outcome, ok, err, hangs}
use comsrv.ByteStream.{
  handle as handle_byte_stream, ByteStreamRequest, ByteStreamResponse, disconnect, connect, write,
  read_to_term, read_exact, read_all, cobs_write, cobs_read, cobs_query, write_line, read_line,
  query_line, mod_bus,
}
use comsrv.Transport.Tcp.{
  exchange, keep, take_stream, Attempt, Handler, TcpOptions, bytes, set_options_of, check_close,
  abort_task, options, answer, dispatch, handle_bytestream_request, goes_on, try_again, try_once,
  retry_loop, wrap, handle,
}

-- The handler as the loop finds it.
abbrev pub prepared : ℕ → Option TcpOptions → Handler → Handler
prepared now opts h = record (set_options_of opts h) {
  drop_delay_task = none;
  cobs_stream = none;
  last_request = now;
}

pub check_close-bytes :
    (now : ℕ) (req : ByteStreamRequest) (opts : Option TcpOptions) (h : Handler)
    → req ≢ disconnect
    → check_close now (bytes req opts) h ≡ (none, abort_task h)
unfolding check_close
check_close-bytes now disconnect opts h d = absurd (d refl)
check_close-bytes now connect opts h d = refl
check_close-bytes now (write x) opts h d = refl
check_close-bytes now (read_to_term x) opts h d = refl
check_close-bytes now (read_exact x) opts h d = refl
check_close-bytes now read_all opts h d = refl
check_close-bytes now (cobs_write x) opts h d = refl
check_close-bytes now cobs_read opts h d = refl
check_close-bytes now (cobs_query x) opts h d = refl
check_close-bytes now (write_line x y) opts h d = refl
check_close-bytes now (read_line x) opts h d = refl
check_close-bytes now (query_line x y) opts h d = refl
check_close-bytes now (mod_bus x y z) opts h d = refl

keep-Settles :
    (x : Outcome ByteStreamResponse × Stream) (h : Handler) → Settles x → Settles (keep x h)
unfolding keep
keep-Settles (ok ret, s) h u = tt
keep-Settles (err e, s) h u = tt
keep-Settles (hangs, s) h u = u

module _ (is_utf8 : List ℕ → Bool) (transaction_id : ℕ → ℕ) (network : ℕ → Attempt) where
  abbrev pub attempt : ℕ → ByteStreamRequest → Handler → Outcome ByteStreamResponse × Handler
  attempt = try_once is_utf8 transaction_id network

  -- After `tries` tries, `n` more lead from `h` to `h'`, and each fails with an error to retry.
  abbrev pub Failures : ℕ → ℕ → ByteStreamRequest → Handler → Handler → Type 0
  Failures zero tries req h h' = h ≡ h'
  Failures (suc n) tries req h h' =
      (e : Error) × (next : Handler) × (attempt (suc tries) req h ≡ (err e, next))
      × (should_retry e ≡ true)
      × Failures n (suc tries) req next h'

  -- The outcome of try number `tries` is the last one.
  abbrev pub IsFinal : ℕ → Outcome ByteStreamResponse → Type 0
  IsFinal tries (ok ret) = Unit {0}
  IsFinal tries (err e) = (should_retry e ≡ false) ⊎ (tries ≡ 4)
  IsFinal tries hangs = Unit {0}

  abbrev Ends : ℕ → ℕ → ByteStreamRequest → Handler → Type 0
  Ends fuel tries req h =
      (n : ℕ) × (h' : Handler) × (n < fuel)
      × Failures n tries req h h'
      × IsFinal (suc (tries + n)) (attempt (suc (tries + n)) req h').0
      × (retry_loop is_utf8 transaction_id network fuel tries req h
          ≡ attempt (suc (tries + n)) req h')

  final :
      (fuel tries : ℕ) (req : ByteStreamRequest) (h : Handler)
      (x : Outcome ByteStreamResponse × Handler)
      → attempt (suc tries) req h ≡ x
      → IsFinal (suc tries) x.0
      → try_again (suc tries) x (retry_loop is_utf8 transaction_id network fuel (suc tries) req) ≡ x
      → Ends (suc fuel) tries req h
  unfolding retry_loop
  final fuel tries req h x e f g =
      let z : tries + 0 ≡ tries = omega arith in (0, h, omega arith, refl, rw (z, e) f, rw (z, e) g)

  later :
      (fuel tries : ℕ) (req : ByteStreamRequest) (h next : Handler) (e : Error)
      → attempt (suc tries) req h ≡ (err e, next)
      → should_retry e ≡ true
      → goes_on (suc tries) e ≡ true
      → Ends fuel (suc tries) req next
      → Ends (suc fuel) tries req h
  unfolding retry_loop try_again
  later fuel tries req h next e at r g (n, h', lt, failures, f, eq) =
      let z : tries + suc n ≡ suc tries + n = omega arith in
      (suc n, h', omega arith, (e, next, at, r, failures), rw z f, rw (z, at, g) eq)

  failing :
      (fuel tries : ℕ) (req : ByteStreamRequest) (h next : Handler) (e : Error)
      → suc tries + fuel ≡ 4
      → attempt (suc tries) req h ≡ (err e, next)
      → ((0 < fuel) → Ends fuel (suc tries) req next)
      → Ends (suc fuel) tries req h
  unfolding try_again goes_on
  failing zero tries req h next e s at rest =
      final zero tries req h (err e, next) at (inr (omega arith)) (ground arith)
  failing (suc fuel) tries req h next e s at rest = elim (Bool-cases (should_retry e)) [
    | inl r ↦ later (suc fuel) tries req h next e at r (ground arith) (rest (omega arith))
    | inr r ↦ final (suc fuel) tries req h (err e, next) at (inl r) (ground arith)
  ]

  by_outcome :
      (fuel tries : ℕ) (req : ByteStreamRequest) (h : Handler)
      (x : Outcome ByteStreamResponse × Handler)
      → suc tries + fuel ≡ 4
      → attempt (suc tries) req h ≡ x
      → ((0 < fuel) → (next : Handler) → Ends fuel (suc tries) req next)
      → Ends (suc fuel) tries req h
  unfolding try_again
  by_outcome fuel tries req h (ok ret, next) s at rest =
      final fuel tries req h (ok ret, next) at tt refl
  by_outcome fuel tries req h (hangs, next) s at rest =
      final fuel tries req h (hangs, next) at tt refl
  by_outcome fuel tries req h (err e, next) s at rest =
      failing fuel tries req h next e s at (λ p. rest p next)

  ends :
      (fuel tries : ℕ) (req : ByteStreamRequest) (h : Handler)
      → suc tries + fuel ≡ 4
      → Ends (suc fuel) tries req h
  ends zero tries req h s =
      by_outcome zero tries req h (attempt (suc tries) req h) s refl
        (λ p next. absurd (omega arith))
  ends (suc fuel) tries req h s =
      by_outcome (suc fuel) tries req h (attempt (suc tries) req h) s refl
        (λ p next. ends fuel (suc tries) req next (omega arith))

  try_once-Settles :
      (tries : ℕ) (req : ByteStreamRequest) (x : Result Stream) (h : Handler)
      → Settles (exchange is_utf8 transaction_id network tries req (x, h))
  unfolding exchange
  try_once-Settles tries req (Result.err e) h = tt
  try_once-Settles tries req (Result.ok s) h =
      keep-Settles (handle_byte_stream is_utf8 (transaction_id tries) req s) h
        (handle-Settles is_utf8 (transaction_id tries) req s)

  -- The loop returns: it never runs out of its fuel, and neither does a request that it makes.
  pub retry_loop-Settles :
      (req : ByteStreamRequest) (h : Handler)
      → Settles (retry_loop is_utf8 transaction_id network 4 0 req h)
  unfolding try_once
  retry_loop-Settles req h =
      let (n, h', lt, failures, f, e) = ends 3 0 req h refl in
      let taken = take_stream network h'.stream h' in
      rw e (try_once-Settles (suc (0 + n)) req taken.0 taken.1)

  -- A byte stream request that is not to disconnect ends with its first try that succeeds, never
  -- returns, or fails for good: all tries before it fail with an error to retry, and the fourth one
  -- is the last in any case.
  pub handle-Failures :
      (now : ℕ) (req : ByteStreamRequest) (opts : Option TcpOptions) (h : Handler)
      → req ≢ disconnect
      → (n : ℕ) × (h' : Handler) × (n < 4)
        × Failures n 0 req (prepared now opts h) h'
        × IsFinal (suc n) (attempt (suc n) req h').0
        × (handle is_utf8 transaction_id network now (bytes req opts) h
            ≡ wrap (attempt (suc n) req h'))
  unfolding handle answer dispatch handle_bytestream_request options check_close abort_task
  handle-Failures now req opts h d =
      let (n, h', lt, failures, f, e) = ends 3 0 req (prepared now opts h) refl in
      let z : 0 + n ≡ n = omega arith in
      (
        n,
        h',
        lt,
        failures,
        rw z at f,
        rw (check_close-bytes now req opts (set_options_of opts h) d) (ap wrap (rw z at e)),
      )
