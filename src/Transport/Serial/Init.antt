-- ===== src/Transport/Serial/Init.antt =====
-- The controller on an open port was initialised, as long as the flag of Prologix is set.
use comsrv.Base.{
  ℕ, Bool, true, false, List, ◌++◌, append_assoc, Option, none, some, ◌≡◌, refl, arith, ap,
  Bool-cases, inl, inr, ◌-◌, ltb, ◌∙◌,
}
use comsrv.Protocol.Error.{Result}
use comsrv.Protocol.CobsStream.{CobsStreamRequest, start, stop, send_frame}
use comsrv.Protocol.Scpi.{ScpiRequest, ScpiResponse}
use comsrv.Stream.{Stream, Outcome, ok, err, hangs}
use comsrv.Stream.Laws.{TakesAll}
use comsrv.Stream.Outgoing.{Extends}
use comsrv.ByteStream.{
  ByteStreamResponse, disconnect, handle as handle_byte_stream, connect, write, read_to_term,
  read_exact, read_all, cobs_write, cobs_read, cobs_query, write_line, read_line, query_line,
  mod_bus,
}
use comsrv.Transport.CobsStream.{CobsStream, start as start_stream}
use comsrv.Prologix.{init_prologix, handle_prologix_request}
use comsrv.Prologix.Outgoing.{
  init_text, WasInitialized, handle_prologix_request-Extends, init_prologix-WasInitialized,
}
use comsrv.Transport.Serial.{
  Params, Request, prologix, bytes, serial, cobs, drop_check, Response, params, same_params,
  Handler, abort_task, drop_check_of, open_result, open_found, open_serial, keeps_port, put_back,
  finish, as_scpi, as_bytes, initialized, usable, start_crc, sent, replace_cobs, cobs_opened,
  cobs_with, handle_cobs_request, prologix_request, handle_request, serve, serve_with, dispatch,
  answer, handle,
}

abbrev pub Flagged : Bool → Stream → Type 0
Flagged true s = WasInitialized s
Flagged false s = Unit {0}

abbrev pub FlagOfPort : Bool → Option (Stream × Params) → Type 0
FlagOfPort b none = Unit {0}
FlagOfPort b (some (s, p)) = Flagged b s

-- Where the flag is set and the port is open, the port was initialised.
abbrev pub IsFlagRight : Handler → Type 0
IsFlagRight h = FlagOfPort h.prologix_initialized h.port

no_flag : (b : Bool) (x : Option (Stream × Params)) → b ≡ false → FlagOfPort b x
no_flag true x e = absurd (ground arith)
no_flag false none e = tt
no_flag false (some (s, p)) e = tt

no_port : (h : Handler) → h.port ≡ none → IsFlagRight h
no_port h e = rw e tt

Extends-WasInitialized : (s s' : Stream) → Extends s s' → WasInitialized s → WasInitialized s'
Extends-WasInitialized s s' (more, e) (before, after, f) = (
  before,
  after ++ more,
  e
      ∙ ap (λ (l : List ℕ). l ++ more) f
      ∙ append_assoc before (init_text ++ after) more
      ∙ ap (◌++◌ before) (append_assoc init_text after more),
)

-- The handler whose port is taken, and the stream that it has in hand.
abbrev Held : Handler → Stream → Type 0
Held h s = (h.port ≡ none) × Flagged h.prologix_initialized s

abbrev HeldAfter : Outcome Response × Stream × Handler → Type 0
HeldAfter (x, s, h) = Held h s

abbrev FoundHeld : Result Stream × Handler → Type 0
FoundHeld (Result.ok s, h) = Held h s
FoundHeld (Result.err e, h) = h.port ≡ none

fresh-FoundHeld :
    (x : Result Stream) (h : Handler)
    → h.port ≡ none
    → h.prologix_initialized ≡ false
    → FoundHeld (x, h)
fresh-FoundHeld (Result.ok s) h e f = (e, rw f tt)
fresh-FoundHeld (Result.err x) h e f = e

open_found-FoundHeld :
    (opened : Option Stream) (p : Params) (x : Option (Stream × Params)) (h : Handler)
    → FlagOfPort h.prologix_initialized x
    → FoundHeld (open_found opened p x h)
unfolding open_found
open_found-FoundHeld opened p none h f = fresh-FoundHeld (open_result opened) _ refl refl
open_found-FoundHeld opened p (some (s, old)) h f = elim (Bool-cases (same_params old p)) [
  | inl e ↦ rw e (refl, f)
  | inr e ↦ rw e (fresh-FoundHeld (open_result opened) _ refl refl)
]

as_scpi-HeldAfter :
    (h : Handler) (x : Outcome ScpiResponse × Stream) → Held h x.1 → HeldAfter (as_scpi h x)
unfolding as_scpi
as_scpi-HeldAfter h (ok ret, s) e = e
as_scpi-HeldAfter h (err x, s) e = e
as_scpi-HeldAfter h (hangs, s) e = e

as_bytes-HeldAfter :
    (h : Handler) (x : Outcome ByteStreamResponse × Stream)
    → h.port ≡ none
    → h.prologix_initialized ≡ false
    → HeldAfter (as_bytes h x)
unfolding as_bytes
as_bytes-HeldAfter h (ok ret, s) e f = (e, rw f tt)
as_bytes-HeldAfter h (err x, s) e f = (e, rw f tt)
as_bytes-HeldAfter h (hangs, s) e f = (e, rw f tt)

finish-IsFlagRight :
    (p : Params) (x : Outcome Response × Stream × Handler)
    → HeldAfter x
    → IsFlagRight (finish p x).1
unfolding finish put_back
finish-IsFlagRight p (ok ret, s, h) (e, f) = f
finish-IsFlagRight p (hangs, s, h) (e, f) = no_port h e
finish-IsFlagRight p (err x, s, h) (e, f) = elim (Bool-cases (keeps_port x)) [
  | inl k ↦ rw k f
  | inr k ↦ rw k (no_port h e)
]

replace_cobs-IsFlagRight :
    (p : Params) (x : Result CobsStream) (h : Handler)
    → h.port ≡ none
    → IsFlagRight (replace_cobs p x h).1
unfolding replace_cobs
replace_cobs-IsFlagRight p (Result.ok c) h e = rw e tt
replace_cobs-IsFlagRight p (Result.err x) h e = rw e tt

cobs_opened-IsFlagRight :
    (p : Params) (req : CobsStreamRequest) (x : Result Stream) (h : Handler)
    → FoundHeld (x, h)
    → IsFlagRight (cobs_opened p req (x, h)).1
unfolding cobs_opened
cobs_opened-IsFlagRight p req (Result.err e) h n = no_port h n
cobs_opened-IsFlagRight p req (Result.ok s) h (n, f) =
    replace_cobs-IsFlagRight p (sent req (start_stream s h.cobs_stream_use_crc)) h n

cobs_with-IsFlagRight :
    (opened : Option Stream) (p : Params) (req : CobsStreamRequest) (x : Option CobsStream)
    (h : Handler)
    → h.port ≡ none
    → IsFlagRight (cobs_with opened p req x h).1
unfolding cobs_with open_serial
cobs_with-IsFlagRight opened p req (some c) h e = replace_cobs-IsFlagRight p (sent req c) h e
cobs_with-IsFlagRight opened p req none h e =
    let h' = record h { cobs_stream = none } in
    let found = open_found opened p h.port h' in
    cobs_opened-IsFlagRight p req found.0 found.1
      (open_found-FoundHeld opened p h.port h' (rw e tt))

drop_check_of-IsFlagRight :
    (now : ℕ) (req : Request) (h : Handler)
    → IsFlagRight h
    → IsFlagRight (drop_check_of now req h).1
unfolding drop_check_of abort_task
drop_check_of-IsFlagRight now (cobs p stop) h e = e
drop_check_of-IsFlagRight now (bytes p disconnect) h e = tt
drop_check_of-IsFlagRight now drop_check h e =
    elim (Bool-cases (ltb h.drop_delay (now - h.last_request))) [ inl t ↦ rw t tt | inr t ↦ rw t e ]
drop_check_of-IsFlagRight now (prologix addr req) h e = e
drop_check_of-IsFlagRight now (serial p req) h e = e
drop_check_of-IsFlagRight now (cobs p (start use_crc)) h e = e
drop_check_of-IsFlagRight now (cobs p (send_frame payload)) h e = e
drop_check_of-IsFlagRight now (bytes p connect) h e = e
drop_check_of-IsFlagRight now (bytes p (write x)) h e = e
drop_check_of-IsFlagRight now (bytes p (read_to_term x)) h e = e
drop_check_of-IsFlagRight now (bytes p (read_exact x)) h e = e
drop_check_of-IsFlagRight now (bytes p read_all) h e = e
drop_check_of-IsFlagRight now (bytes p (cobs_write x)) h e = e
drop_check_of-IsFlagRight now (bytes p cobs_read) h e = e
drop_check_of-IsFlagRight now (bytes p (cobs_query x)) h e = e
drop_check_of-IsFlagRight now (bytes p (write_line x y)) h e = e
drop_check_of-IsFlagRight now (bytes p (read_line x)) h e = e
drop_check_of-IsFlagRight now (bytes p (query_line x y)) h e = e
drop_check_of-IsFlagRight now (bytes p (mod_bus x y z)) h e = e

module _ (is_utf8 : List ℕ → Bool) (late : ℕ → Bool) (room : List ℕ → Stream → ℕ)
    (transaction_id : ℕ) where
  init-HeldAfter :
      (addr : ℕ) (req : ScpiRequest) (s : Stream) (h : Handler)
      → TakesAll room
      → Held h s
      → HeldAfter (
          initialized
            (handle_prologix_request is_utf8 late room addr req)
            h
            (init_prologix is_utf8 late room s))
  unfolding initialized
  init-HeldAfter addr req s h all (n, f) =
      elim (init_prologix-WasInitialized is_utf8 late room s all) [
        | inl (e, at) ↦ rw at (n, f)
        | inr (s', at, was) ↦ rw at (
            as_scpi-HeldAfter (record h { prologix_initialized = true })
              (handle_prologix_request is_utf8 late room addr req s')
              (
                n,
                Extends-WasInitialized s' (handle_prologix_request is_utf8 late room addr req s').1
                    (handle_prologix_request-Extends is_utf8 late room addr req s') was,
              ))
      ]

  prologix_request-HeldAfter :
      (b : Bool) (addr : ℕ) (req : ScpiRequest) (s : Stream) (h : Handler)
      → TakesAll room
      → h.prologix_initialized ≡ b
      → Held h s
      → HeldAfter (prologix_request is_utf8 late room transaction_id b addr req s h)
  unfolding prologix_request
  prologix_request-HeldAfter true addr req s h all flag (n, f) =
      as_scpi-HeldAfter h (handle_prologix_request is_utf8 late room addr req s) (
        n,
        rw flag (
            Extends-WasInitialized s (handle_prologix_request is_utf8 late room addr req s).1
              (handle_prologix_request-Extends is_utf8 late room addr req s) (rw flag at f)),
      )
  prologix_request-HeldAfter false addr req s h all flag k = init-HeldAfter addr req s h all k

  handle_request-HeldAfter :
      (pin : Option Bool) (req : Request) (s : Stream) (h : Handler)
      → TakesAll room
      → Held h s
      → HeldAfter (handle_request is_utf8 late room transaction_id pin req s h)
  unfolding handle_request
  handle_request-HeldAfter pin (prologix addr req) s h all k =
      prologix_request-HeldAfter h.prologix_initialized addr req s h all refl k
  handle_request-HeldAfter pin (bytes p req) s h all (n, f) =
      as_bytes-HeldAfter (record h { prologix_initialized = false })
        (handle_byte_stream is_utf8 transaction_id req s) n refl
  handle_request-HeldAfter pin (serial p req) s h all k = k
  handle_request-HeldAfter pin (cobs p req) s h all k = k
  handle_request-HeldAfter pin drop_check s h all k = k

  serve-IsFlagRight :
      (pin : Option Bool) (p : Params) (req : Request) (x : Result Stream) (h : Handler)
      → TakesAll room
      → FoundHeld (x, h)
      → IsFlagRight (serve is_utf8 late room transaction_id pin p req (x, h)).1
  unfolding serve
  serve-IsFlagRight pin p req (Result.err x) h all e = no_port h e
  serve-IsFlagRight pin p req (Result.ok s) h all k =
      finish-IsFlagRight p (handle_request is_utf8 late room transaction_id pin req s h)
        (handle_request-HeldAfter pin req s h all k)

  serve_with-IsFlagRight :
      (opened : Option Stream) (pin : Option Bool) (x : Option Params) (req : Request) (h : Handler)
      → TakesAll room
      → IsFlagRight h
      → IsFlagRight (serve_with is_utf8 late room transaction_id opened pin x req h).1
  unfolding serve_with open_serial
  serve_with-IsFlagRight opened pin none req h all e = e
  serve_with-IsFlagRight opened pin (some p) req h all e =
      let found = open_found opened p h.port h in
      serve-IsFlagRight pin p req found.0 found.1 all (open_found-FoundHeld opened p h.port h e)

  dispatch-IsFlagRight :
      (opened : Option Stream) (pin : Option Bool) (req : Request) (h : Handler)
      → TakesAll room
      → IsFlagRight h
      → IsFlagRight (dispatch is_utf8 late room transaction_id opened pin req h).1
  unfolding dispatch handle_cobs_request
  dispatch-IsFlagRight opened pin (cobs p req) h all e =
      cobs_with-IsFlagRight opened p req
        (usable p (start_crc req h.cobs_stream_use_crc) h.cobs_stream)
        (record h { port = none; cobs_stream_use_crc = start_crc req h.cobs_stream_use_crc }) refl
  dispatch-IsFlagRight opened pin (prologix addr req) h all e =
      serve_with-IsFlagRight opened pin (params (prologix addr req)) (prologix addr req)
        (record h { cobs_stream = none }) all e
  dispatch-IsFlagRight opened pin (bytes p req) h all e =
      serve_with-IsFlagRight opened pin (params (bytes p req)) (bytes p req)
        (record h { cobs_stream = none }) all e
  dispatch-IsFlagRight opened pin (serial p req) h all e =
      serve_with-IsFlagRight opened pin (params (serial p req)) (serial p req)
        (record h { cobs_stream = none }) all e
  dispatch-IsFlagRight opened pin drop_check h all e =
      serve_with-IsFlagRight opened pin (params drop_check) drop_check
        (record h { cobs_stream = none }) all e

  answer-IsFlagRight :
      (opened : Option Stream) (pin : Option Bool) (req : Request) (x : Option Response)
      (h : Handler)
      → TakesAll room
      → IsFlagRight h
      → IsFlagRight (answer is_utf8 late room transaction_id opened pin req (x, h)).1
  unfolding answer
  answer-IsFlagRight opened pin req (some reply) h all e = e
  answer-IsFlagRight opened pin req none h all e = dispatch-IsFlagRight opened pin req h all e

  -- Where one call of `write` takes all it is given, every request keeps this: if the flag of Prologix
  -- is set and the port is open, the three lines that initialise the controller were written on this
  -- port, one behind the other.
  pub handle-IsFlagRight :
      (now : ℕ) (opened : Option Stream) (pin : Option Bool) (req : Request) (h : Handler)
      → TakesAll room
      → IsFlagRight h
      → IsFlagRight (handle is_utf8 late room transaction_id now opened pin req h).1
  unfolding handle
  handle-IsFlagRight now opened pin req h all e =
      let checked = drop_check_of now req h in
      answer-IsFlagRight opened pin req checked.0 checked.1 all
        (drop_check_of-IsFlagRight now req h e)
