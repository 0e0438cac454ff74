-- ===== src/Transport/Serial.antt =====
-- comsrv/src/transport/serial/mod.rs: the handler that owns a serial port. Opening the port and its
-- pins are parameters (`none` where they fail), and so is what Prologix and byte stream requests
-- leave open. Times are numbers of milliseconds.
mod Messages
pub mod Laws
pub mod Closing
pub mod Total
pub mod Exclusive
pub mod Init
unfoldable pub use Messages.*
use comsrv.Base.{
  ℕ, ◌+◌, ◌-◌, Bool, true, false, List, [], ◌∷◌, Option, none, some, not, ◌&&◌, ltb, ◌==◌,
  if◌then◌else◌,
}
use comsrv.Protocol.Error.{
  Error, Result, transport, protocol, argument, internal, TransportError, message, internal_error,
}
use comsrv.Protocol.CobsStream.{CobsStreamRequest, start, stop, send_frame}
use comsrv.Protocol.Scpi.{ScpiRequest, ScpiResponse}
use comsrv.Stream.{Stream, Outcome, ok, err, hangs, Io}
use comsrv.SerialParams.{
  SerialParams, Parity, StopBits, DataBits, eight, seven, odd, even, one, two,
}
use comsrv.SerialParams
use comsrv.ByteStream.{
  ByteStreamRequest, ByteStreamResponse, disconnect, handle as handle_byte_stream,
}
use comsrv.Transport.CobsStream.{CobsStream, is_alive, send, start as start_stream}
use comsrv.Prologix.{init_prologix, handle_prologix_request}

-- `drop_delay_task` is the time that the task sleeps before it sends `DropCheck`.
pub record Handler : Type 0 where
  pub port : Option (Stream × Params)
  pub cobs_stream : Option (CobsStream × Params)
  pub prologix_initialized : Bool
  pub drop_delay : ℕ
  pub last_request : ℕ
  pub drop_delay_task : Option ℕ
  pub cobs_stream_use_crc : Bool

unfoldable pub new : (now : ℕ) → Handler
new now = record {
  port = none;
  cobs_stream = none;
  prologix_initialized = false;
  drop_delay = 60000;
  last_request = now;
  drop_delay_task = none;
  cobs_stream_use_crc = true;
}

unfoldable pub abort_task : Handler → Handler
abort_task h = record h { drop_delay_task = none }

unfoldable pub drop_check_of : (now : ℕ) → Request → Handler → Option Response × Handler
unfolding abort_task
drop_check_of now (cobs p stop) h = (some cobs, record h { cobs_stream = none })
drop_check_of now (bytes p disconnect) h =
    (some (bytes ByteStreamResponse.done), record h { port = none })
drop_check_of now drop_check h =
    (some done, if ltb h.drop_delay (now - h.last_request) then record h { port = none } else h)
drop_check_of now (prologix addr req) h = (none, abort_task h)
drop_check_of now (bytes p req) h = (none, abort_task h)
drop_check_of now (serial p req) h = (none, abort_task h)
drop_check_of now (cobs p req) h = (none, abort_task h)

abbrev pub transport_other : Error
transport_other = transport (TransportError.other message)

-- `open_serial_port`
unfoldable pub open_result : Option Stream → Result Stream
open_result none = Result.err transport_other
open_result (some s) = Result.ok s

unfoldable pub pin_result : Option Bool → Result Bool
pin_result none = Result.err transport_other
pin_result (some level) = Result.ok level

unfoldable pub pin_written : Result Bool → Outcome Response
pin_written (Result.ok level) = ok (serial done)
pin_written (Result.err e) = err e

unfoldable pub pin_read : Result Bool → Outcome Response
pin_read (Result.ok level) = ok (serial (pin_level level))
pin_read (Result.err e) = err e

unfoldable pub handle_pins : SerialRequest → Result Bool → Outcome Response
unfolding pin_written pin_read
handle_pins (write_data_terminal_ready x) pin = pin_written pin
handle_pins (write_request_to_send x) pin = pin_written pin
handle_pins read_data_set_ready pin = pin_read pin
handle_pins read_ring_indicator pin = pin_read pin
handle_pins read_carrier_detect pin = pin_read pin
handle_pins read_clear_to_send pin = pin_read pin

-- The port that a request opens, if its parameters are new, and the flag of Prologix.
unfoldable pub open_found :
    (opened : Option Stream) → Params → Option (Stream × Params) → Handler → Result Stream × Handler
unfolding open_result
open_found opened p none h =
    (open_result opened, record h { port = none; prologix_initialized = false })
open_found opened p (some (s, old)) h =
    if same_params old p
    then (Result.ok s, record h { port = none })
    else (open_result opened, record h { port = none; prologix_initialized = false })

unfoldable pub open_serial : (opened : Option Stream) → Params → Handler → Result Stream × Handler
unfolding open_found
open_serial opened p h = open_found opened p h.port h

-- Is the port kept after this outcome?
unfoldable pub keeps_port : Error → Bool
keeps_port (protocol e) = true
keeps_port (transport e) = false
keeps_port (argument e) = false
keeps_port (internal e) = false

unfoldable pub put_back : Params → Stream → Handler → Handler
put_back p s h = record h { port = some (s, p); drop_delay_task = some (h.drop_delay + 100) }

-- The end of `handle`.
unfoldable pub finish : Params → Outcome Response × Stream × Handler → Outcome Response × Handler
unfolding put_back keeps_port
finish p (ok ret, s, h) = (ok ret, put_back p s h)
finish p (err e, s, h) = (err e, if keeps_port e then put_back p s h else h)
finish p (hangs, s, h) = (hangs, h)

unfoldable pub as_scpi :
    Handler → Outcome ScpiResponse × Stream → Outcome Response × Stream × Handler
as_scpi h (ok ret, s) = (ok (scpi ret), s, h)
as_scpi h (err e, s) = (err e, s, h)
as_scpi h (hangs, s) = (hangs, s, h)

unfoldable pub as_bytes :
    Handler → Outcome ByteStreamResponse × Stream → Outcome Response × Stream × Handler
as_bytes h (ok ret, s) = (ok (bytes ret), s, h)
as_bytes h (err e, s) = (err e, s, h)
as_bytes h (hangs, s) = (hangs, s, h)

unfoldable pub initialized :
    (Stream → Outcome ScpiResponse × Stream)
    → Handler
    → Outcome (Unit {0}) × Stream
    → Outcome Response × Stream × Handler
unfolding as_scpi
initialized request h (ok a, s) = as_scpi (record h { prologix_initialized = true }) (request s)
initialized request h (err e, s) = (err e, s, h)
initialized request h (hangs, s) = (hangs, s, h)

-- `self.cobs_stream`, if it can serve these parameters.
unfoldable pub usable : Params → Bool → Option (CobsStream × Params) → Option CobsStream
usable p use_crc none = none
usable p use_crc (some (c, old)) =
    if (same_params old p && is_alive c) && (if use_crc then c.use_crc else not c.use_crc)
    then some c
    else none

unfoldable pub start_crc : CobsStreamRequest → Bool → Bool
start_crc (start use_crc) old = use_crc
start_crc stop old = old
start_crc (send_frame payload) old = old

unfoldable pub sent : CobsStreamRequest → CobsStream → Result CobsStream
sent (send_frame payload) c = send payload c
sent stop c = Result.ok c
sent (start use_crc) c = Result.ok c

unfoldable pub replace_cobs : Params → Result CobsStream → Handler → Outcome Response × Handler
replace_cobs p (Result.ok c) h = (ok cobs, record h { cobs_stream = some (c, p) })
replace_cobs p (Result.err e) h = (err e, record h { cobs_stream = none })

unfoldable pub cobs_opened :
    Params → CobsStreamRequest → Result Stream × Handler → Outcome Response × Handler
unfolding replace_cobs sent
cobs_opened p req (Result.err e, h) = (err e, h)
cobs_opened p req (Result.ok s, h) =
    replace_cobs p (sent req (start_stream s h.cobs_stream_use_crc)) h

unfoldable pub cobs_with :
    (opened : Option Stream)
    → Params
    → CobsStreamRequest
    → Option CobsStream
    → Handler
    → Outcome Response × Handler
unfolding cobs_opened replace_cobs sent open_serial
cobs_with opened p req (some c) h = replace_cobs p (sent req c) h
cobs_with opened p req none h =
    cobs_opened p req (open_serial opened p (record h { cobs_stream = none }))

unfoldable pub handle_cobs_request :
    (opened : Option Stream) → Params → CobsStreamRequest → Handler → Outcome Response × Handler
unfolding cobs_with usable start_crc
handle_cobs_request opened p req h =
    let use_crc = start_crc req h.cobs_stream_use_crc in
    cobs_with opened p req (usable p use_crc h.cobs_stream)
      (record h { port = none; cobs_stream_use_crc = use_crc })

module _ (is_utf8 : List ℕ → Bool) (late : ℕ → Bool) (room : List ℕ → Stream → ℕ)
    (transaction_id : ℕ) where
  unfoldable pub prologix_request :
      (initialized : Bool)
      → ℕ
      → ScpiRequest
      → Stream
      → Handler
      → Outcome Response × Stream × Handler
  unfolding as_scpi initialized
  prologix_request true addr req s h =
      as_scpi h (handle_prologix_request is_utf8 late room addr req s)
  prologix_request false addr req s h =
      initialized (handle_prologix_request is_utf8 late room addr req) h
        (init_prologix is_utf8 late room s)

  -- `handle_request`, on the port that was taken. The last two requests do not get here.
  unfoldable pub handle_request :
      (pin : Option Bool) → Request → Stream → Handler → Outcome Response × Stream × Handler
  unfolding prologix_request as_bytes handle_pins pin_result
  handle_request pin (prologix addr req) s h = prologix_request h.prologix_initialized addr req s h
  handle_request pin (bytes p req) s h =
      as_bytes (record h { prologix_initialized = false })
        (handle_byte_stream is_utf8 transaction_id req s)
  handle_request pin (serial p req) s h = (handle_pins req (pin_result pin), s, h)
  handle_request pin (cobs p req) s h = (err internal_error, s, h)
  handle_request pin drop_check s h = (err internal_error, s, h)

  unfoldable pub serve :
      (pin : Option Bool) → Params → Request → Result Stream × Handler → Outcome Response × Handler
  unfolding handle_request finish
  serve pin p req (Result.err e, h) = (err e, h)
  serve pin p req (Result.ok s, h) = finish p (handle_request pin req s h)

  -- The code unwraps the parameters; only `DropCheck` has none.
  unfoldable pub serve_with :
      (opened : Option Stream) (pin : Option Bool)
      → Option Params
      → Request
      → Handler
      → Outcome Response × Handler
  unfolding serve open_serial
  serve_with opened pin none req h = (err internal_error, h)
  serve_with opened pin (some p) req h = serve pin p req (open_serial opened p h)

  unfoldable pub dispatch :
      (opened : Option Stream) (pin : Option Bool) → Request → Handler → Outcome Response × Handler
  unfolding serve_with handle_cobs_request params
  dispatch opened pin (cobs p req) h = handle_cobs_request opened p req h
  dispatch opened pin (prologix addr req) h =
      serve_with opened pin (params (prologix addr req)) (prologix addr req)
        (record h { cobs_stream = none })
  dispatch opened pin (bytes p req) h =
      serve_with opened pin (params (bytes p req)) (bytes p req) (record h { cobs_stream = none })
  dispatch opened pin (serial p req) h =
      serve_with opened pin (params (serial p req)) (serial p req) (record h { cobs_stream = none })
  dispatch opened pin drop_check h =
      serve_with opened pin (params drop_check) drop_check (record h { cobs_stream = none })

  unfoldable pub answer :
      (opened : Option Stream) (pin : Option Bool)
      → Request
      → Option Response × Handler
      → Outcome Response × Handler
  unfolding dispatch
  answer opened pin req (some reply, h) = (ok reply, h)
  answer opened pin req (none, h) = dispatch opened pin req h

  unfoldable pub handle :
      (now : ℕ) (opened : Option Stream) (pin : Option Bool)
      → Request
      → Handler
      → Outcome Response × Handler
  unfolding answer drop_check_of
  handle now opened pin req h = answer opened pin req (drop_check_of now req h)
