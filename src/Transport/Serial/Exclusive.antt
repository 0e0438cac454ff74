-- ===== src/Transport/Serial/Exclusive.antt =====
-- A serial port is open for requests or for a COBS stream, never for both.
use comsrv.Base.{
  ℕ, Bool, true, false, List, Option, none, some, ◌≡◌, refl, Bool-cases, inl, inr, ◌-◌, ltb, ◌∙◌,
}
use comsrv.Protocol.Error.{Result}
use comsrv.Protocol.CobsStream.{CobsStreamRequest, start, stop, send_frame}
use comsrv.Protocol.Scpi.{ScpiRequest, ScpiResponse}
use comsrv.Stream.{Stream, Outcome, ok, err, hangs}
use comsrv.ByteStream.{
  ByteStreamResponse, disconnect, handle as handle_byte_stream, connect, write, read_to_term,
  read_exact, read_all, cobs_write, cobs_read, cobs_query, write_line, read_line, query_line,
  mod_bus,
}
use comsrv.Transport.CobsStream.{CobsStream, start as start_stream}
use comsrv.Prologix.{init_prologix, handle_prologix_request}
use comsrv.Transport.Serial.{
  Params, Request, prologix, bytes, serial, cobs, drop_check, Response, params, same_params,
  Handler, abort_task, drop_check_of, open_found, open_serial, keeps_port, put_back, finish,
  as_scpi, as_bytes, initialized, usable, start_crc, sent, replace_cobs, cobs_opened, cobs_with,
  handle_cobs_request, prologix_request, handle_request, serve, serve_with, dispatch, answer,
  handle,
}

abbrev pub Exclusive : Option (Stream × Params) → Option (CobsStream × Params) → Type 0
Exclusive (some port) (some cobs_stream) = ⊥
Exclusive (some port) none = Unit {0}
Exclusive none cobs_stream = Unit {0}

abbrev pub IsExclusive : Handler → Type 0
IsExclusive h = Exclusive h.port h.cobs_stream

no_port : (h : Handler) → h.port ≡ none → IsExclusive h
no_port h e = rw e tt

some_or_none : (x : Option (Stream × Params)) → Exclusive x none
some_or_none (some p) = tt
some_or_none none = tt

pub no_cobs : (h : Handler) → h.cobs_stream ≡ none → IsExclusive h
no_cobs h e = rw e (some_or_none h.port)

-- A port that was taken leaves none, and the COBS stream stays.
abbrev pub Taken : Handler → Handler → Type 0
Taken h h' =
    (h'.port ≡ none)
    × (h'.cobs_stream ≡ h.cobs_stream)
    × (h'.drop_delay ≡ h.drop_delay)
    × (h'.drop_delay_task ≡ h.drop_delay_task)

pub open_found-Taken :
    (opened : Option Stream) (p : Params) (x : Option (Stream × Params)) (h : Handler)
    → Taken h (open_found opened p x h).1
unfolding open_found
open_found-Taken opened p none h = (refl, refl, refl, refl)
open_found-Taken opened p (some (s, old)) h = elim (Bool-cases (same_params old p)) [
  | inl e ↦ rw e (refl, refl, refl, refl)
  | inr e ↦ rw e (refl, refl, refl, refl)
]

replace_cobs-IsExclusive :
    (p : Params) (x : Result CobsStream) (h : Handler)
    → h.port ≡ none
    → IsExclusive (replace_cobs p x h).1
unfolding replace_cobs
replace_cobs-IsExclusive p (Result.ok c) h e = rw e tt
replace_cobs-IsExclusive p (Result.err x) h e = rw e tt

cobs_opened-IsExclusive :
    (p : Params) (req : CobsStreamRequest) (x : Result Stream) (h : Handler)
    → h.port ≡ none
    → IsExclusive (cobs_opened p req (x, h)).1
unfolding cobs_opened
cobs_opened-IsExclusive p req (Result.err e) h n = no_port h n
cobs_opened-IsExclusive p req (Result.ok s) h n =
    replace_cobs-IsExclusive p (sent req (start_stream s h.cobs_stream_use_crc)) h n

cobs_with-IsExclusive :
    (opened : Option Stream) (p : Params) (req : CobsStreamRequest) (x : Option CobsStream)
    (h : Handler)
    → h.port ≡ none
    → IsExclusive (cobs_with opened p req x h).1
unfolding cobs_with open_serial
cobs_with-IsExclusive opened p req (some c) h e = replace_cobs-IsExclusive p (sent req c) h e
cobs_with-IsExclusive opened p req none h e =
    let h' = record h { cobs_stream = none } in
    let found = open_found opened p h.port h' in
    cobs_opened-IsExclusive p req found.0 found.1 (open_found-Taken opened p h.port h').0

abbrev Free : Outcome Response × Stream × Handler → Type 0
Free (x, s, h) = h.cobs_stream ≡ none

as_scpi-Free :
    (h : Handler) (x : Outcome ScpiResponse × Stream) → h.cobs_stream ≡ none → Free (as_scpi h x)
unfolding as_scpi
as_scpi-Free h (ok ret, s) e = e
as_scpi-Free h (err x, s) e = e
as_scpi-Free h (hangs, s) e = e

as_bytes-Free :
    (h : Handler) (x : Outcome ByteStreamResponse × Stream)
    → h.cobs_stream ≡ none
    → Free (as_bytes h x)
unfolding as_bytes
as_bytes-Free h (ok ret, s) e = e
as_bytes-Free h (err x, s) e = e
as_bytes-Free h (hangs, s) e = e

initialized-Free :
    (f : Stream → Outcome ScpiResponse × Stream) (h : Handler) (x : Outcome (Unit {0}) × Stream)
    → h.cobs_stream ≡ none
    → Free (initialized f h x)
unfolding initialized
initialized-Free f h (ok a, s) e = as_scpi-Free (record h { prologix_initialized = true }) (f s) e
initialized-Free f h (err x, s) e = e
initialized-Free f h (hangs, s) e = e

finish-IsExclusive :
    (p : Params) (x : Outcome Response × Stream × Handler) → Free x → IsExclusive (finish p x).1
unfolding finish put_back
finish-IsExclusive p (ok ret, s, h) e = rw e tt
finish-IsExclusive p (hangs, s, h) e = no_cobs h e
finish-IsExclusive p (err x, s, h) e = elim (Bool-cases (keeps_port x)) [
  | inl k ↦ rw (k, e) tt
  | inr k ↦ rw k (no_cobs h e)
]

drop_check_of-IsExclusive :
    (now : ℕ) (req : Request) (h : Handler)
    → IsExclusive h
    → IsExclusive (drop_check_of now req h).1
unfolding drop_check_of abort_task
drop_check_of-IsExclusive now (cobs p stop) h e = some_or_none h.port
drop_check_of-IsExclusive now (bytes p disconnect) h e = tt
drop_check_of-IsExclusive now drop_check h e =
    elim (Bool-cases (ltb h.drop_delay (now - h.last_request))) [ inl t ↦ rw t tt | inr t ↦ rw t e ]
drop_check_of-IsExclusive now (prologix addr req) h e = e
drop_check_of-IsExclusive now (serial p req) h e = e
drop_check_of-IsExclusive now (cobs p (start use_crc)) h e = e
drop_check_of-IsExclusive now (cobs p (send_frame payload)) h e = e
drop_check_of-IsExclusive now (bytes p connect) h e = e
drop_check_of-IsExclusive now (bytes p (write x)) h e = e
drop_check_of-IsExclusive now (bytes p (read_to_term x)) h e = e
drop_check_of-IsExclusive now (bytes p (read_exact x)) h e = e
drop_check_of-IsExclusive now (bytes p read_all) h e = e
drop_check_of-IsExclusive now (bytes p (cobs_write x)) h e = e
drop_check_of-IsExclusive now (bytes p cobs_read) h e = e
drop_check_of-IsExclusive now (bytes p (cobs_query x)) h e = e
drop_check_of-IsExclusive now (bytes p (write_line x y)) h e = e
drop_check_of-IsExclusive now (bytes p (read_line x)) h e = e
drop_check_of-IsExclusive now (bytes p (query_line x y)) h e = e
drop_check_of-IsExclusive now (bytes p (mod_bus x y z)) h e = e

module _ (is_utf8 : List ℕ → Bool) (late : ℕ → Bool) (room : List ℕ → Stream → ℕ)
    (transaction_id : ℕ) where
  prologix_request-Free :
      (b : Bool) (addr : ℕ) (req : ScpiRequest) (s : Stream) (h : Handler)
      → h.cobs_stream ≡ none
      → Free (prologix_request is_utf8 late room transaction_id b addr req s h)
  unfolding prologix_request
  prologix_request-Free true addr req s h e =
      as_scpi-Free h (handle_prologix_request is_utf8 late room addr req s) e
  prologix_request-Free false addr req s h e =
      initialized-Free (handle_prologix_request is_utf8 late room addr req) h
        (init_prologix is_utf8 late room s) e

  handle_request-Free :
      (pin : Option Bool) (req : Request) (s : Stream) (h : Handler)
      → h.cobs_stream ≡ none
      → Free (handle_request is_utf8 late room transaction_id pin req s h)
  unfolding handle_request
  handle_request-Free pin (prologix addr req) s h e =
      prologix_request-Free h.prologix_initialized addr req s h e
  handle_request-Free pin (bytes p req) s h e =
      as_bytes-Free (record h { prologix_initialized = false })
        (handle_byte_stream is_utf8 transaction_id req s) e
  handle_request-Free pin (serial p req) s h e = e
  handle_request-Free pin (cobs p req) s h e = e
  handle_request-Free pin drop_check s h e = e

  serve-IsExclusive :
      (pin : Option Bool) (p : Params) (req : Request) (x : Result Stream) (h : Handler)
      → h.cobs_stream ≡ none
      → IsExclusive (serve is_utf8 late room transaction_id pin p req (x, h)).1
  unfolding serve
  serve-IsExclusive pin p req (Result.err x) h e = no_cobs h e
  serve-IsExclusive pin p req (Result.ok s) h e =
      finish-IsExclusive p (handle_request is_utf8 late room transaction_id pin req s h)
        (handle_request-Free pin req s h e)

  serve_with-IsExclusive :
      (opened : Option Stream) (pin : Option Bool) (x : Option Params) (req : Request) (h : Handler)
      → h.cobs_stream ≡ none
      → IsExclusive (serve_with is_utf8 late room transaction_id opened pin x req h).1
  unfolding serve_with open_serial
  serve_with-IsExclusive opened pin none req h e = no_cobs h e
  serve_with-IsExclusive opened pin (some p) req h e =
      let found = open_found opened p h.port h in
      serve-IsExclusive pin p req found.0 found.1 ((open_found-Taken opened p h.port h).1 ∙ e)

  dispatch-IsExclusive :
      (opened : Option Stream) (pin : Option Bool) (req : Request) (h : Handler)
      → IsExclusive (dispatch is_utf8 late room transaction_id opened pin req h).1
  unfolding dispatch handle_cobs_request
  dispatch-IsExclusive opened pin (cobs p req) h =
      cobs_with-IsExclusive opened p req
        (usable p (start_crc req h.cobs_stream_use_crc) h.cobs_stream)
        (record h { port = none; cobs_stream_use_crc = start_crc req h.cobs_stream_use_crc }) refl
  dispatch-IsExclusive opened pin (prologix addr req) h =
      serve_with-IsExclusive opened pin (params (prologix addr req)) (prologix addr req)
        (record h { cobs_stream = none }) refl
  dispatch-IsExclusive opened pin (bytes p req) h =
      serve_with-IsExclusive opened pin (params (bytes p req)) (bytes p req)
        (record h { cobs_stream = none }) refl
  dispatch-IsExclusive opened pin (serial p req) h =
      serve_with-IsExclusive opened pin (params (serial p req)) (serial p req)
        (record h { cobs_stream = none }) refl
  dispatch-IsExclusive opened pin drop_check h =
      serve_with-IsExclusive opened pin (params drop_check) drop_check
        (record h { cobs_stream = none }) refl

  answer-IsExclusive :
      (opened : Option Stream) (pin : Option Bool) (req : Request) (x : Option Response)
      (h : Handler)
      → IsExclusive h
      → IsExclusive (answer is_utf8 late room transaction_id opened pin req (x, h)).1
  unfolding answer
  answer-IsExclusive opened pin req (some reply) h e = e
  answer-IsExclusive opened pin req none h e = dispatch-IsExclusive opened pin req h

  -- If the port is not open for requests and for a COBS stream at once, it is not after any request,
  -- whatever opening the port, its pins and the exchange on it give.
  pub handle-IsExclusive :
      (now : ℕ) (opened : Option Stream) (pin : Option Bool) (req : Request) (h : Handler)
      → IsExclusive h
      → IsExclusive (handle is_utf8 late room transaction_id now opened pin req h).1
  unfolding handle
  handle-IsExclusive now opened pin req h e =
      let checked = drop_check_of now req h in
      answer-IsExclusive opened pin req checked.0 checked.1 (drop_check_of-IsExclusive now req h e)
