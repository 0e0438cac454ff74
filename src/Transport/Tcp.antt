-- ===== src/Transport/Tcp.antt =====
-- comsrv/src/transport/tcp.rs: the handler that owns the connection to a TCP address. What the
-- attempts to connect give is a parameter, as are the transaction ids of ModBus; times are numbers
-- of milliseconds. A handle that is dropped cancels its stream, so the model just forgets it.
pub mod Laws
pub mod Connection
use comsrv.Base.{
  ℕ, zero, suc, ◌+◌, ◌-◌, Bool, true, false, List, Option, none, some, not, ◌&&◌, ◌||◌, ltb, leb,
  if◌then◌else◌,
}
use comsrv.Protocol.Error.{
  ErrorKind, Error, Result, transport, io, timed_out, should_retry, internal_error,
}
use comsrv.Stream.{Stream, Outcome, ok, err, hangs}
use comsrv.ByteStream.{
  ByteStreamRequest, ByteStreamResponse, disconnect, done, handle as handle_byte_stream,
}
use comsrv.Protocol.CobsStream.{CobsStreamRequest, start, stop, send_frame}
use comsrv.Transport.CobsStream.{CobsStream, is_alive, send, start as start_stream}

pub record TcpOptions : Type 0 where
  pub auto_drop : Option ℕ
  pub connection_timeout : Option ℕ

pub data TcpRequest : Type 0 where
  set_options : TcpOptions → TcpRequest
  bytes : ByteStreamRequest → Option TcpOptions → TcpRequest
  cobs : CobsStreamRequest → Option TcpOptions → TcpRequest
  drop_check : TcpRequest

pub data TcpResponse : Type 0 where
  bytes : ByteStreamResponse → TcpResponse
  cobs : TcpResponse
  nope : TcpResponse

-- `TcpStream::connect`: it never returns, or it succeeds or fails after a time.
pub data Attempt : Type 0 where
  never : Attempt
  connected : (elapsed : ℕ) → Stream → Attempt
  failed : (elapsed : ℕ) → ErrorKind → Attempt

-- `drop_delay_task` is the time that the task sleeps before it sends `DropCheck`, and `attempts`
-- counts the attempts to connect.
pub record Handler : Type 0 where
  pub stream : Option Stream
  pub last_request : ℕ
  pub drop_delay : ℕ
  pub connection_timeout : ℕ
  pub drop_delay_task : Option ℕ
  pub cobs_stream : Option CobsStream
  pub cobs_stream_use_crc : Bool
  pub attempts : ℕ

unfoldable pub new : (now : ℕ) → Handler
new now = record {
  stream = none;
  last_request = now;
  drop_delay = 100000;
  connection_timeout = 500;
  drop_delay_task = none;
  cobs_stream = none;
  cobs_stream_use_crc = false;
  attempts = 0;
}

unfoldable pub options : TcpRequest → Option TcpOptions
options (set_options x) = some x
options (bytes request x) = x
options (cobs request x) = x
options drop_check = none

unfoldable pub or_else : Option ℕ → ℕ → ℕ
or_else none old = old
or_else (some new) old = new

unfoldable pub set_options_of : Option TcpOptions → Handler → Handler
unfolding or_else
set_options_of none h = h
set_options_of (some opts) h = record h {
  drop_delay = or_else opts.auto_drop h.drop_delay;
  connection_timeout = or_else opts.connection_timeout h.connection_timeout;
}

unfoldable pub close_stream : Handler → Handler
close_stream h = record h { stream = none; cobs_stream = none }

unfoldable pub abort_task : Handler → Handler
abort_task h = record h { drop_delay_task = none }

-- The answer, where the request needs no connection.
unfoldable pub check_close : (now : ℕ) → TcpRequest → Handler → Option TcpResponse × Handler
unfolding close_stream abort_task
check_close now (bytes disconnect opts) h = (some (bytes done), close_stream h)
check_close now (cobs stop opts) h = (some cobs, close_stream h)
check_close now drop_check h =
    (some nope, if ltb h.drop_delay (now - h.last_request) then record h { stream = none } else h)
check_close now (set_options opts) h = (none, abort_task h)
check_close now (bytes request opts) h = (none, abort_task h)
check_close now (cobs request opts) h = (none, abort_task h)

unfoldable pub connect_tcp_stream : (connection_timeout : ℕ) → Attempt → Result Stream
connect_tcp_stream timeout never = Result.err (transport (io timed_out))
connect_tcp_stream timeout (connected elapsed s) =
    if leb elapsed timeout then Result.ok s else Result.err (transport (io timed_out))
connect_tcp_stream timeout (failed elapsed kind) =
    if leb elapsed timeout
    then Result.err (transport (io kind))
    else Result.err (transport (io timed_out))

-- A new connection or the stream that is there, which is taken.
unfoldable pub take_stream : (ℕ → Attempt) → Option Stream → Handler → Result Stream × Handler
unfolding connect_tcp_stream
take_stream network (some s) h = (Result.ok s, record h { stream = none })
take_stream network none h = (
  connect_tcp_stream h.connection_timeout (network h.attempts),
  record h { attempts = h.attempts + 1 },
)

unfoldable pub keep :
    Outcome ByteStreamResponse × Stream → Handler → Outcome ByteStreamResponse × Handler
keep (ok ret, s) h =
    (ok ret, record h { stream = some s; drop_delay_task = some (h.drop_delay + 100) })
keep (err e, s) h = (err e, h)
keep (hangs, s) h = (hangs, h)

-- Does the loop go on after this error of try number `tries`?
unfoldable pub goes_on : (tries : ℕ) → Error → Bool
goes_on tries e = not (not (should_retry e) || ltb 3 tries)

unfoldable pub try_again :
    (tries : ℕ)
    → Outcome ByteStreamResponse × Handler
    → (Handler → Outcome ByteStreamResponse × Handler)
    → Outcome ByteStreamResponse × Handler
unfolding goes_on
try_again tries (ok ret, h) rest = (ok ret, h)
try_again tries (err e, h) rest = if goes_on tries e then rest h else (err e, h)
try_again tries (hangs, h) rest = (hangs, h)

-- `self.cobs_stream`, if it can serve.
unfoldable pub usable : Bool → Option CobsStream → Option CobsStream
usable use_crc none = none
usable use_crc (some c) =
    if is_alive c && (if use_crc then c.use_crc else not c.use_crc) then some c else none

unfoldable pub start_crc : CobsStreamRequest → Bool → Bool
start_crc (start use_crc) old = use_crc
start_crc stop old = old
start_crc (send_frame payload) old = old

unfoldable pub sent : CobsStreamRequest → CobsStream → Result CobsStream
sent (send_frame payload) c = send payload c
sent stop c = Result.ok c
sent (start use_crc) c = Result.ok c

unfoldable pub replace_cobs : Result CobsStream → Handler → Outcome TcpResponse × Handler
replace_cobs (Result.ok c) h = (ok cobs, record h { cobs_stream = some c })
replace_cobs (Result.err e) h = (err e, record h { cobs_stream = none })

unfoldable pub wrap : Outcome ByteStreamResponse × Handler → Outcome TcpResponse × Handler
wrap (ok ret, h) = (ok (bytes ret), h)
wrap (err e, h) = (err e, h)
wrap (hangs, h) = (hangs, h)

module _ (is_utf8 : List ℕ → Bool) (transaction_id : ℕ → ℕ) (network : ℕ → Attempt) where
  -- One round of the loop: the byte stream request on the stream that was taken.
  unfoldable pub exchange :
      (tries : ℕ)
      → ByteStreamRequest
      → Result Stream × Handler
      → Outcome ByteStreamResponse × Handler
  unfolding keep
  exchange tries req (Result.err e, h) = (err e, h)
  exchange tries req (Result.ok s, h) =
      keep (handle_byte_stream is_utf8 (transaction_id tries) req s) h

  unfoldable pub try_once :
      (tries : ℕ) → ByteStreamRequest → Handler → Outcome ByteStreamResponse × Handler
  unfolding exchange take_stream
  try_once tries req h = exchange tries req (take_stream network h.stream h)

  -- The loop, from the number of tries that were made. It ends at the fourth try.
  unfoldable pub retry_loop :
      (fuel tries : ℕ) → ByteStreamRequest → Handler → Outcome ByteStreamResponse × Handler
  unfolding try_once try_again
  retry_loop zero tries req h = (hangs, h)
  retry_loop (suc fuel) tries req h =
      try_again (suc tries) (try_once (suc tries) req h) (retry_loop fuel (suc tries) req)

  unfoldable pub handle_bytestream_request :
      (now : ℕ) → ByteStreamRequest → Handler → Outcome TcpResponse × Handler
  unfolding retry_loop wrap
  handle_bytestream_request now req h = wrap (retry_loop 4 0 req (record h { last_request = now }))

  unfoldable pub cobs_connected :
      CobsStreamRequest → Result Stream → Handler → Outcome TcpResponse × Handler
  unfolding replace_cobs sent
  cobs_connected req (Result.err e) h = (err e, h)
  cobs_connected req (Result.ok s) h =
      replace_cobs (sent req (start_stream s h.cobs_stream_use_crc)) h

  unfoldable pub cobs_with :
      CobsStreamRequest → Option CobsStream → Handler → Outcome TcpResponse × Handler
  unfolding cobs_connected replace_cobs sent
  cobs_with req (some c) h = replace_cobs (sent req c) h
  cobs_with req none h =
      cobs_connected req (connect_tcp_stream h.connection_timeout (network h.attempts))
        (record h { cobs_stream = none; attempts = h.attempts + 1 })

  unfoldable pub handle_cobs_request : CobsStreamRequest → Handler → Outcome TcpResponse × Handler
  unfolding cobs_with usable start_crc
  handle_cobs_request req h =
      let use_crc = start_crc req h.cobs_stream_use_crc in
      cobs_with req (usable use_crc h.cobs_stream) (record h { cobs_stream_use_crc = use_crc })

  unfoldable pub dispatch : (now : ℕ) → TcpRequest → Handler → Outcome TcpResponse × Handler
  unfolding handle_bytestream_request handle_cobs_request
  dispatch now (cobs request opts) h = handle_cobs_request request h
  dispatch now (bytes request opts) h =
      handle_bytestream_request now request (record h { cobs_stream = none })
  dispatch now (set_options opts) h = (err internal_error, record h { cobs_stream = none })
  dispatch now drop_check h = (err internal_error, record h { cobs_stream = none })

  unfoldable pub answer :
      (now : ℕ) → TcpRequest → Option TcpResponse × Handler → Outcome TcpResponse × Handler
  unfolding dispatch
  answer now req (some ret, h) = (ok ret, h)
  answer now req (none, h) = dispatch now req h

  unfoldable pub handle : (now : ℕ) → TcpRequest → Handler → Outcome TcpResponse × Handler
  unfolding answer check_close set_options_of options
  handle now req h = answer now req (check_close now req (set_options_of (options req) h))
