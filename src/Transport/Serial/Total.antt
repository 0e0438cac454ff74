-- ===== src/Transport/Serial/Total.antt =====
-- Every request to a serial port that uses the port returns.
use comsrv.Base.{ℕ, Bool, true, false, List, Option, none}
use comsrv.Protocol.Error.{Result, ok, err}
use comsrv.Protocol.Scpi.{ScpiRequest, ScpiResponse}
use comsrv.Stream.{Stream, Outcome, hangs}
use comsrv.Stream.Total.{Settles}
use comsrv.ByteStream.{ByteStreamResponse, handle as handle_byte_stream}
use comsrv.ByteStream.Total.{handle-Settles}
use comsrv.Prologix.{init_prologix, handle_prologix_request}
use comsrv.Prologix.Total.{init_prologix-IsTotal, handle_prologix_request-IsTotal}
use comsrv.Transport.Serial.{
  Params, Request, prologix, bytes, serial, cobs, drop_check, Response, SerialRequest, Handler,
  pin_written, pin_read, handle_pins, pin_result, finish, as_scpi, as_bytes, initialized,
  prologix_request, handle_request, serve, serve_with, dispatch, answer, handle, params,
  open_serial, prologix_params, drop_check_of, abort_task,
}
use comsrv.Transport.Serial.Laws.{Uses, drop_check_of-bytes}

-- The outcome of a request with the port to its use is an answer or an error.
abbrev HandledSettles : Outcome Response × Stream × Handler → Type 0
HandledSettles (Outcome.ok ret, s, h) = Unit {0}
HandledSettles (Outcome.err e, s, h) = Unit {0}
HandledSettles (hangs, s, h) = ⊥

pin_written-Settles :
    (x : Result Bool) (s : Stream) (h : Handler) → HandledSettles (pin_written x, s, h)
unfolding pin_written
pin_written-Settles (ok level) s h = tt
pin_written-Settles (err e) s h = tt

pin_read-Settles : (x : Result Bool) (s : Stream) (h : Handler) → HandledSettles (pin_read x, s, h)
unfolding pin_read
pin_read-Settles (ok level) s h = tt
pin_read-Settles (err e) s h = tt

handle_pins-Settles :
    (req : SerialRequest) (x : Result Bool) (s : Stream) (h : Handler)
    → HandledSettles (handle_pins req x, s, h)
unfolding handle_pins
handle_pins-Settles (SerialRequest.write_data_terminal_ready b) x s h = pin_written-Settles x s h
handle_pins-Settles (SerialRequest.write_request_to_send b) x s h = pin_written-Settles x s h
handle_pins-Settles SerialRequest.read_data_set_ready x s h = pin_read-Settles x s h
handle_pins-Settles SerialRequest.read_ring_indicator x s h = pin_read-Settles x s h
handle_pins-Settles SerialRequest.read_carrier_detect x s h = pin_read-Settles x s h
handle_pins-Settles SerialRequest.read_clear_to_send x s h = pin_read-Settles x s h

as_scpi-Settles :
    (h : Handler) (x : Outcome ScpiResponse × Stream) → Settles x → HandledSettles (as_scpi h x)
unfolding as_scpi
as_scpi-Settles h (Outcome.ok ret, s) u = tt
as_scpi-Settles h (Outcome.err e, s) u = tt
as_scpi-Settles h (hangs, s) u = u

as_bytes-Settles :
    (h : Handler) (x : Outcome ByteStreamResponse × Stream)
    → Settles x
    → HandledSettles (as_bytes h x)
unfolding as_bytes
as_bytes-Settles h (Outcome.ok ret, s) u = tt
as_bytes-Settles h (Outcome.err e, s) u = tt
as_bytes-Settles h (hangs, s) u = u

initialized-Settles :
    (f : Stream → Outcome ScpiResponse × Stream) (h : Handler) (x : Outcome (Unit {0}) × Stream)
    → ((s : Stream) → Settles (f s))
    → Settles x
    → HandledSettles (initialized f h x)
unfolding initialized
initialized-Settles f h (Outcome.ok a, s) k u =
    as_scpi-Settles (record h { prologix_initialized = true }) (f s) (k s)
initialized-Settles f h (Outcome.err e, s) k u = tt
initialized-Settles f h (hangs, s) k u = u

finish-Settles :
    (p : Params) (x : Outcome Response × Stream × Handler) → HandledSettles x → Settles (finish p x)
unfolding finish
finish-Settles p (Outcome.ok ret, s, h) u = tt
finish-Settles p (Outcome.err e, s, h) u = tt
finish-Settles p (hangs, s, h) u = u

module _ (is_utf8 : List ℕ → Bool) (late : ℕ → Bool) (room : List ℕ → Stream → ℕ)
    (transaction_id : ℕ) where
  prologix_request-Settles :
      (b : Bool) (addr : ℕ) (req : ScpiRequest) (s : Stream) (h : Handler)
      → HandledSettles (prologix_request is_utf8 late room transaction_id b addr req s h)
  unfolding prologix_request
  prologix_request-Settles true addr req s h =
      as_scpi-Settles h (handle_prologix_request is_utf8 late room addr req s)
        ((handle_prologix_request-IsTotal is_utf8 late room addr req).settles s)
  prologix_request-Settles false addr req s h =
      initialized-Settles (handle_prologix_request is_utf8 late room addr req) h
        (init_prologix is_utf8 late room s)
        (handle_prologix_request-IsTotal is_utf8 late room addr req).settles
        ((init_prologix-IsTotal is_utf8 late room).settles s)

  handle_request-Settles :
      (pin : Option Bool) (req : Request) (s : Stream) (h : Handler)
      → HandledSettles (handle_request is_utf8 late room transaction_id pin req s h)
  unfolding handle_request
  handle_request-Settles pin (prologix addr req) s h =
      prologix_request-Settles h.prologix_initialized addr req s h
  handle_request-Settles pin (bytes p req) s h =
      as_bytes-Settles (record h { prologix_initialized = false })
        (handle_byte_stream is_utf8 transaction_id req s)
        (handle-Settles is_utf8 transaction_id req s)
  handle_request-Settles pin (serial p req) s h = handle_pins-Settles req (pin_result pin) s h
  handle_request-Settles pin (cobs p req) s h = tt
  handle_request-Settles pin drop_check s h = tt

  serve-Settles :
      (pin : Option Bool) (p : Params) (req : Request) (x : Result Stream × Handler)
      → Settles (serve is_utf8 late room transaction_id pin p req x)
  unfolding serve
  serve-Settles pin p req (err e, h) = tt
  serve-Settles pin p req (ok s, h) =
      finish-Settles p (handle_request is_utf8 late room transaction_id pin req s h)
        (handle_request-Settles pin req s h)

  -- A request that uses the port returns.
  pub handled-Settles :
      (now : ℕ) (opened : Option Stream) (pin : Option Bool) (p : Params) (req : Request)
      (h : Handler)
      → Uses p req
      → Settles (handle is_utf8 late room transaction_id now opened pin req h)
  unfolding handle answer dispatch serve_with params drop_check_of abort_task
  handled-Settles now opened pin p (prologix addr req) h e =
      serve-Settles pin prologix_params (prologix addr req) (
        open_serial opened prologix_params
          (record h { cobs_stream = none; drop_delay_task = none }))
  handled-Settles now opened pin p (serial q req) h e =
      serve-Settles pin q (serial q req)
        (open_serial opened q (record h { cobs_stream = none; drop_delay_task = none }))
  handled-Settles now opened pin p (bytes q req) h (e, d) = rw (drop_check_of-bytes now q req h d) (
      serve-Settles pin q (bytes q req)
        (open_serial opened q (record h { cobs_stream = none; drop_delay_task = none })))
  handled-Settles now opened pin p (cobs q req) h u = absurd u
  handled-Settles now opened pin p drop_check h u = absurd u
