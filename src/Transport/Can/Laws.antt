-- ===== src/Transport/Can/Laws.antt =====
-- The handler of a CAN device: its sender and its listener come and go together, and what an error
-- of the device does.
use comsrv.Base.{
  ℕ, zero, suc, ltb, Bool, true, false, List, Option, none, some, ◌≡◌, inl, inr, refl, arith,
  Bool-cases, if◌then◌else◌,
}
use comsrv.Protocol.Error.{Result, ok, err, should_retry}
use comsrv.Protocol.Can.{
  CanInstrument, CanMessage, CanRequest, CanResponse, listen_raw, listen_gct, stop_all,
  enable_loopback, tx_raw, tx_gct, Run, returns, panics,
}
use comsrv.Gct.Encode.{encode}
use comsrv.Transport.Can.{
  CanError, CanSender, Mailbox, Handler, Request, check_open, check_listener, other_bitrate,
  update_bitrate, forget, make_sender, opened, both_open, restart, transmit, transmit_encoded,
  sent_with, posted, request_on, request_with, handle_request, try_again, retry_loop, handle_open,
  handle,
}

-- The handler has a sender and a listener, or neither.
abbrev pub IsPaired : Option CanSender → Option Mailbox → Type 0
IsPaired (some device) (some listener) = Unit {0}
IsPaired none none = Unit {0}
IsPaired none (some listener) = ⊥
IsPaired (some device) none = ⊥

abbrev pub Paired {ℓ} : {A : Type ℓ} → Run (A × Handler) → Type 0
Paired (returns (ret, h)) = IsPaired h.sender h.listener
Paired panics = Unit {0}

opened-Paired :
    (x : Result CanSender) (h : Handler)
    → IsPaired h.sender h.listener
    → Paired (returns (opened x h))
unfolding opened
opened-Paired (ok device) h p = tt
opened-Paired (err e) h p = p

both_open-IsPaired :
    (sender : Option CanSender) (listener : Option Mailbox)
    → both_open sender listener ≡ true
    → IsPaired sender listener
unfolding both_open
both_open-IsPaired (some device) (some tx) e = tt
both_open-IsPaired none listener e = absurd (ground arith)
both_open-IsPaired (some device) none e = absurd (ground arith)

restart-Paired :
    (refused : Option CanError) (instr : CanInstrument) (h : Handler)
    → Paired (returns (restart refused instr h))
unfolding restart
restart-Paired refused instr h = elim (Bool-cases (both_open h.sender h.listener)) [
  | inl e ↦ rw e (both_open-IsPaired h.sender h.listener e)
  | inr e ↦ rw e (opened-Paired (make_sender refused instr) _ tt)
]

module _ (accepted : CanMessage → Bool) (fault : List CanMessage → Option CanError) where
  sent-Paired :
      (h : Handler) (x : Result (Unit {0}) × CanSender × Mailbox)
      → Paired (returns (sent_with accepted fault h x))
  unfolding sent_with
  sent-Paired h (ok a, device, listener) = tt
  sent-Paired h (err e, device, listener) = tt

  request_on-Paired :
      (req : CanRequest) (device : CanSender) (listener : Mailbox) (h : Handler)
      → h.sender ≡ some device
      → h.listener ≡ some listener
      → Paired (returns (request_on accepted fault req device listener h))
  unfolding request_on posted
  request_on-Paired (listen_raw en) device listener h s l = rw (s) tt
  request_on-Paired (listen_gct en) device listener h s l = rw (s) tt
  request_on-Paired stop_all device listener h s l = rw (s) tt
  request_on-Paired (enable_loopback en) device listener h s l = rw (s, l) tt
  request_on-Paired (tx_raw msg) device listener h s l =
      sent-Paired h (transmit accepted fault h.loopback msg device listener)
  request_on-Paired (tx_gct msg) device listener h s l =
      sent-Paired h (transmit_encoded accepted fault h.loopback (encode msg) device listener)

  request_with-Paired :
      (req : CanRequest) (device : Option CanSender) (listener : Option Mailbox) (h : Handler)
      → h.sender ≡ device
      → h.listener ≡ listener
      → Paired (request_with accepted fault req device listener h)
  unfolding request_with
  request_with-Paired req (some device) (some listener) h s l =
      request_on-Paired req device listener h s l
  request_with-Paired req none listener h s l = tt
  request_with-Paired req (some device) none h s l = tt

  try_again-Paired :
      (retries : ℕ) (rest : Handler → Run (Result CanResponse × Handler))
      (x : Run (Result CanResponse × Handler))
      → Paired x
      → ((h : Handler) → h.sender ≡ none → h.listener ≡ none → Paired (rest h))
      → Paired (try_again accepted fault retries rest x)
  unfolding try_again
  try_again-Paired retries rest panics p k = tt
  try_again-Paired retries rest (returns (ok ret, h)) p k = p
  try_again-Paired retries rest (returns (err e, h)) p k =
      let again =
        k (record h { sender = none; listener = none; former = forget h.listener h.former }) refl
          refl in
      elim (Bool-cases (ltb 3 retries)) [
        | inl t ↦ rw t p
        | inr t ↦ elim (Bool-cases (should_retry e)) [
          | inl r ↦ rw (t, r) again
          | inr r ↦ rw (t, r) p
        ]
      ]

  retry_loop-Paired :
      (fuel retries : ℕ) (req : CanRequest) (h : Handler)
      → IsPaired h.sender h.listener
      → Paired (retry_loop accepted fault fuel retries req h)
  unfolding retry_loop handle_request
  retry_loop-Paired zero retries req h p = p
  retry_loop-Paired (suc fuel) retries req h p =
      try_again-Paired (suc retries) (retry_loop accepted fault fuel (suc retries) req)
        (request_with accepted fault req h.sender h.listener h)
        (request_with-Paired req h.sender h.listener h refl refl)
        (λ h' s l. retry_loop-Paired fuel (suc retries) req h' (rw (s, l) tt))

  handle_open-Paired :
      (req : CanRequest) (x : Result (Unit {0}) × Handler)
      → Paired (returns x)
      → Paired (handle_open accepted fault req x)
  unfolding handle_open
  handle_open-Paired req (err e, h) p = p
  handle_open-Paired req (ok a, h) p = retry_loop-Paired 4 0 req h p

  -- After every request, in whatever state it found the handler, the handler has both a sender and
  -- a listener or neither of them, unless it panics.
  pub handle-Paired :
      (refused : Option CanError) (req : Request) (h : Handler)
      → Paired (handle accepted fault refused req h)
  unfolding handle
  handle-Paired refused req h =
      handle_open-Paired req.inner
        (restart refused req.instrument (update_bitrate req.instrument (check_listener h)))
        (restart-Paired refused req.instrument (update_bitrate req.instrument (check_listener h)))

  -- The handler serves this instrument: its listener runs, and the bit rate stays.
  pub record IsReady (instr : CanInstrument) (device : CanSender) (tx : Mailbox) (h : Handler)
      : Type 0 where
    pub has_sender : h.sender ≡ some device
    pub has_listener : h.listener ≡ some tx
    pub runs : tx.closed ≡ false
    pub same_bitrate : other_bitrate instr h.last_instrument ≡ false

  -- The result of a request by what its handling gives.
  abbrev pub result_of : Result CanResponse × Handler → Run (Result CanResponse × Handler)
  result_of (ok ret, h) = returns (ok ret, h)
  result_of (err e, h) = if should_retry e then panics else returns (err e, h)

  first_round :
      (req : CanRequest) (x : Result CanResponse × Handler)
      → try_again accepted fault 1 (retry_loop accepted fault 3 1 req) (returns x) ≡ result_of x
  unfolding try_again retry_loop handle_request request_with
  first_round req (ok ret, h) = refl
  first_round req (err e, h) = ground arith

  -- On a handler that serves the instrument, the answer of the device is returned, and so is an
  -- error that is not to be retried. On an error to retry the handler panics: it drops its sender
  -- and its listener, and unwraps them in the next round.
  pub handle-result_of :
      (refused : Option CanError) (req : Request) (device : CanSender) (tx : Mailbox) (h : Handler)
      → IsReady req.instrument device tx h
      → handle accepted fault refused req h
        ≡ result_of (
            request_on accepted fault req.inner device tx
              (record h { last_instrument = some req.instrument }))
  unfolding handle handle_open restart retry_loop handle_request request_with check_listener
      check_open update_bitrate both_open
  handle-result_of refused req device tx h ready =
      rw (ready.has_listener, ready.runs, check_open, ready.same_bitrate, ready.has_sender)
        (first_round req.inner _)
