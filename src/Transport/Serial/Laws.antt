-- ===== src/Transport/Serial/Laws.antt =====
-- What a request leaves of a serial port.
use comsrv.Base.{
  ℕ, Bool, true, false, List, Option, none, some, ◌≡◌, refl, Bool-cases, inl, inr, ◌+◌, ◌∙◌, subst,
  ◌≢◌,
}
use comsrv.Protocol.Error.{Result, transport, protocol, argument, internal}
use comsrv.Protocol.Scpi.{ScpiRequest, ScpiResponse}
use comsrv.Stream.{Stream, Outcome, ok, err, hangs}
use comsrv.ByteStream.{
  ByteStreamRequest, ByteStreamResponse, disconnect, handle as handle_byte_stream, connect, write,
  read_to_term, read_exact, read_all, cobs_write, cobs_read, cobs_query, write_line, read_line,
  query_line, mod_bus,
}
use comsrv.Prologix.{init_prologix, handle_prologix_request}
use comsrv.Transport.Serial.{
  Params, Request, prologix, bytes, serial, cobs, drop_check, Response, prologix_params, params,
  same_params, Handler, abort_task, drop_check_of, open_result, open_found, open_serial, keeps_port,
  put_back, finish, as_scpi, as_bytes, initialized, prologix_request, handle_request, serve,
  serve_with, dispatch, answer, handle,
}
use comsrv.Transport.Serial.Exclusive.{open_found-Taken}

-- The requests that use the port, with its parameters.
abbrev pub Uses : Params → Request → Type 0
Uses p (prologix addr req) = prologix_params ≡ p
Uses p (bytes q req) = (q ≡ p) × (req ≢ disconnect)
Uses p (serial q req) = q ≡ p
Uses p (cobs q req) = ⊥
Uses p drop_check = ⊥

-- The port is open with these parameters. A task is to send `DropCheck` a tenth of a second after
-- the delay, and `last_request` is what it was.
abbrev pub IsOpen : Params → (drop_delay last_request : ℕ) → Handler → Type 0
IsOpen p delay last h =
    (s : Stream) × (h.port ≡ some (s, p))
    × (h.drop_delay_task ≡ some (delay + 100))
    × (h.drop_delay ≡ delay)
    × (h.last_request ≡ last)

abbrev pub IsClosed : Handler → Type 0
IsClosed h = (h.port ≡ none) × (h.drop_delay_task ≡ none)

abbrev pub LeavesPort : Params → (drop_delay last_request : ℕ) → Outcome Response × Handler → Type 0
LeavesPort p delay last (ok ret, h) = IsOpen p delay last h
LeavesPort p delay last (err (protocol e), h) = IsOpen p delay last h
LeavesPort p delay last (err (transport e), h) = IsClosed h
LeavesPort p delay last (err (argument e), h) = IsClosed h
LeavesPort p delay last (err (internal e), h) = IsClosed h
LeavesPort p delay last (hangs, h) = Unit {0}

-- Handling touches the flag of Prologix at most.
abbrev Keeps : Handler → Outcome Response × Stream × Handler → Type 0
Keeps h (x, s, h') =
    (h'.port ≡ h.port)
    × (h'.drop_delay ≡ h.drop_delay)
    × (h'.drop_delay_task ≡ h.drop_delay_task)
    × (h'.last_request ≡ h.last_request)

as_scpi-Keeps : (h : Handler) (x : Outcome ScpiResponse × Stream) → Keeps h (as_scpi h x)
unfolding as_scpi
as_scpi-Keeps h (ok ret, s) = (refl, refl, refl, refl)
as_scpi-Keeps h (err e, s) = (refl, refl, refl, refl)
as_scpi-Keeps h (hangs, s) = (refl, refl, refl, refl)

as_bytes-Keeps : (h : Handler) (x : Outcome ByteStreamResponse × Stream) → Keeps h (as_bytes h x)
unfolding as_bytes
as_bytes-Keeps h (ok ret, s) = (refl, refl, refl, refl)
as_bytes-Keeps h (err e, s) = (refl, refl, refl, refl)
as_bytes-Keeps h (hangs, s) = (refl, refl, refl, refl)

initialized-Keeps :
    (f : Stream → Outcome ScpiResponse × Stream) (h : Handler) (x : Outcome (Unit {0}) × Stream)
    → Keeps h (initialized f h x)
unfolding initialized
initialized-Keeps f h (ok a, s) = as_scpi-Keeps (record h { prologix_initialized = true }) (f s)
initialized-Keeps f h (err e, s) = (refl, refl, refl, refl)
initialized-Keeps f h (hangs, s) = (refl, refl, refl, refl)

finish-LeavesPort :
    (p : Params) (h : Handler) (x : Outcome Response × Stream × Handler)
    → h.port ≡ none
    → h.drop_delay_task ≡ none
    → Keeps h x
    → LeavesPort p h.drop_delay h.last_request (finish p x)
unfolding finish put_back keeps_port
finish-LeavesPort p h (ok ret, s, h') a b (x, y, z, w) = (s, refl, rw y refl, y, w)
finish-LeavesPort p h (err (protocol e), s, h') a b (x, y, z, w) = (s, refl, rw y refl, y, w)
finish-LeavesPort p h (err (transport e), s, h') a b (x, y, z, w) = (x ∙ a, z ∙ b)
finish-LeavesPort p h (err (argument e), s, h') a b (x, y, z, w) = (x ∙ a, z ∙ b)
finish-LeavesPort p h (err (internal e), s, h') a b (x, y, z, w) = (x ∙ a, z ∙ b)
finish-LeavesPort p h (hangs, s, h') a b k = tt

pub drop_check_of-bytes :
    (now : ℕ) (p : Params) (req : ByteStreamRequest) (h : Handler)
    → req ≢ disconnect
    → drop_check_of now (bytes p req) h ≡ (none, abort_task h)
unfolding drop_check_of
drop_check_of-bytes now p disconnect h d = absurd (d refl)
drop_check_of-bytes now p connect h d = refl
drop_check_of-bytes now p (write x) h d = refl
drop_check_of-bytes now p (read_to_term x) h d = refl
drop_check_of-bytes now p (read_exact x) h d = refl
drop_check_of-bytes now p read_all h d = refl
drop_check_of-bytes now p (cobs_write x) h d = refl
drop_check_of-bytes now p cobs_read h d = refl
drop_check_of-bytes now p (cobs_query x) h d = refl
drop_check_of-bytes now p (write_line x y) h d = refl
drop_check_of-bytes now p (read_line x) h d = refl
drop_check_of-bytes now p (query_line x y) h d = refl
drop_check_of-bytes now p (mod_bus x y z) h d = refl

module _ (is_utf8 : List ℕ → Bool) (late : ℕ → Bool) (room : List ℕ → Stream → ℕ)
    (transaction_id : ℕ) where
  prologix_request-Keeps :
      (b : Bool) (addr : ℕ) (req : ScpiRequest) (s : Stream) (h : Handler)
      → Keeps h (prologix_request is_utf8 late room transaction_id b addr req s h)
  unfolding prologix_request
  prologix_request-Keeps true addr req s h =
      as_scpi-Keeps h (handle_prologix_request is_utf8 late room addr req s)
  prologix_request-Keeps false addr req s h =
      initialized-Keeps (handle_prologix_request is_utf8 late room addr req) h
        (init_prologix is_utf8 late room s)

  handle_request-Keeps :
      (pin : Option Bool) (req : Request) (s : Stream) (h : Handler)
      → Keeps h (handle_request is_utf8 late room transaction_id pin req s h)
  unfolding handle_request
  handle_request-Keeps pin (prologix addr req) s h =
      prologix_request-Keeps h.prologix_initialized addr req s h
  handle_request-Keeps pin (bytes p req) s h =
      as_bytes-Keeps (record h { prologix_initialized = false })
        (handle_byte_stream is_utf8 transaction_id req s)
  handle_request-Keeps pin (serial p req) s h = (refl, refl, refl, refl)
  handle_request-Keeps pin (cobs p req) s h = (refl, refl, refl, refl)
  handle_request-Keeps pin drop_check s h = (refl, refl, refl, refl)

  -- `open_serial` fails with an error of the transport.
  abbrev IsTransport : Result Stream → Type 0
  IsTransport (Result.ok s) = Unit {0}
  IsTransport (Result.err (transport e)) = Unit {0}
  IsTransport (Result.err (protocol e)) = ⊥
  IsTransport (Result.err (argument e)) = ⊥
  IsTransport (Result.err (internal e)) = ⊥

  serve-LeavesPort :
      (pin : Option Bool) (p : Params) (req : Request) (x : Result Stream) (h : Handler)
      → IsTransport x
      → h.port ≡ none
      → h.drop_delay_task ≡ none
      → LeavesPort p h.drop_delay h.last_request
          (serve is_utf8 late room transaction_id pin p req (x, h))
  unfolding serve
  serve-LeavesPort pin p req (Result.err (transport x)) h t a b = (a, b)
  serve-LeavesPort pin p req (Result.err (protocol x)) h t a b = absurd t
  serve-LeavesPort pin p req (Result.err (argument x)) h t a b = absurd t
  serve-LeavesPort pin p req (Result.err (internal x)) h t a b = absurd t
  serve-LeavesPort pin p req (Result.ok s) h t a b =
      finish-LeavesPort p h (handle_request is_utf8 late room transaction_id pin req s h) a b
        (handle_request-Keeps pin req s h)

  open_result-IsTransport : (opened : Option Stream) → IsTransport (open_result opened)
  unfolding open_result
  open_result-IsTransport none = tt
  open_result-IsTransport (some s) = tt

  open_found-IsTransport :
      (opened : Option Stream) (p : Params) (x : Option (Stream × Params)) (h : Handler)
      → IsTransport (open_found opened p x h).0
  unfolding open_found
  open_found-IsTransport opened p none h = open_result-IsTransport opened
  open_found-IsTransport opened p (some (s, old)) h = elim (Bool-cases (same_params old p)) [
    | inl e ↦ rw e tt
    | inr e ↦ rw e (open_result-IsTransport opened)
  ]

  open_found-last_request :
      (opened : Option Stream) (p : Params) (x : Option (Stream × Params)) (h : Handler)
      → (open_found opened p x h).1.last_request ≡ h.last_request
  unfolding open_found
  open_found-last_request opened p none h = refl
  open_found-last_request opened p (some (s, old)) h = elim (Bool-cases (same_params old p)) [
    | inl e ↦ rw e refl
    | inr e ↦ rw e refl
  ]

  -- On a port that is ready to be opened or reused.
  found-LeavesPort :
      (opened : Option Stream) (pin : Option Bool) (p : Params) (req : Request) (h : Handler)
      → h.drop_delay_task ≡ none
      → LeavesPort p h.drop_delay h.last_request
          (serve is_utf8 late room transaction_id pin p req (open_found opened p h.port h))
  found-LeavesPort opened pin p req h b =
      let found = open_found opened p h.port h in
      let served = serve is_utf8 late room transaction_id pin p req found in
      let (t, c, d, e) = open_found-Taken opened p h.port h in
      subst (λ delay. LeavesPort p delay h.last_request served) d
        (subst (λ last. LeavesPort p found.1.drop_delay last served)
          (open_found-last_request opened p h.port h)
          (serve-LeavesPort pin p req found.0 found.1 (open_found-IsTransport opened p h.port h) t
            (e ∙ b)))

  -- The handler after a request that uses the port.
  pub handled-LeavesPort :
      (now : ℕ) (opened : Option Stream) (pin : Option Bool) (p : Params) (req : Request)
      (h : Handler)
      → Uses p req
      → LeavesPort p h.drop_delay h.last_request
          (handle is_utf8 late room transaction_id now opened pin req h)
  unfolding handle answer dispatch serve_with open_serial params drop_check_of abort_task
  handled-LeavesPort now opened pin p (prologix addr req) h e =
      subst
        (λ q.
          LeavesPort q h.drop_delay h.last_request
            (handle is_utf8 late room transaction_id now opened pin (prologix addr req) h))
        e
        (found-LeavesPort opened pin prologix_params (prologix addr req)
          (record h { cobs_stream = none; drop_delay_task = none }) refl)
  handled-LeavesPort now opened pin p (serial q req) h e =
      subst
        (λ q'.
          LeavesPort q' h.drop_delay h.last_request
            (handle is_utf8 late room transaction_id now opened pin (serial q req) h))
        e
        (found-LeavesPort opened pin q (serial q req)
          (record h { cobs_stream = none; drop_delay_task = none }) refl)
  handled-LeavesPort now opened pin p (bytes q req) h (e, d) =
      rw (drop_check_of-bytes now q req h d) (
        subst
          (λ q'. LeavesPort q' h.drop_delay h.last_request (
            dispatch is_utf8 late room transaction_id opened pin (bytes q req)
              (record h { drop_delay_task = none })))
          e
          (found-LeavesPort opened pin q (bytes q req)
            (record h { cobs_stream = none; drop_delay_task = none }) refl))
  handled-LeavesPort now opened pin p (cobs q req) h u = absurd u
  handled-LeavesPort now opened pin p drop_check h u = absurd u

  -- A byte stream request whose parameters are those of the open port uses this port: what opening a
  -- port would give does not matter, and the request is made once, on what the port has received.
  pub handle-same_params :
      (now : ℕ) (opened : Option Stream) (pin : Option Bool) (p old : Params)
      (req : ByteStreamRequest) (s : Stream) (h : Handler)
      → req ≢ disconnect
      → h.port ≡ some (s, old)
      → same_params old p ≡ true
      → handle is_utf8 late room transaction_id now opened pin (bytes p req) h
        ≡ finish p (
            as_bytes
              (record h {
                port = none;
                cobs_stream = none;
                drop_delay_task = none;
                prologix_initialized = false;
              })
              (handle_byte_stream is_utf8 transaction_id req s))
  unfolding handle answer dispatch serve_with serve handle_request open_serial open_found params
      abort_task
  handle-same_params now opened pin p old req s h d e same =
      rw (drop_check_of-bytes now p req h d, e, same) refl
