-- ===== src/Transport/Serial/Closing.antt =====
-- What a request leaves of a serial port, and when the port is closed again.
use comsrv.Base.{ℕ, ◌+◌, ◌-◌, ◌≤◌, ◌<◌, ◌≡◌, Bool, List, Option, none, some}
use comsrv.Protocol.Error.{transport, protocol, argument, internal}
use comsrv.Stream.{Stream, Outcome, ok, err, hangs}
use comsrv.Transport.Serial.{Params, drop_check, Response, done, Handler, handle}
use comsrv.Transport.Serial.Laws.{IsClosed}

module _ (is_utf8 : List ℕ → Bool) (late : ℕ → Bool) (room : List ℕ → Stream → ℕ)
    (transaction_id : ℕ) where
  -- The port is open with these parameters, and what `DropCheck` makes of it at any time `t`.
  abbrev pub IsOpenUntil : Params → (drop_delay last_request : ℕ) → Handler → Type 0
  IsOpenUntil p delay last h =
      (s : Stream) × (h.port ≡ some (s, p))
      × (h.drop_delay_task ≡ some (delay + 100))
      × ((t : ℕ) (opened : Option Stream) (pin : Option Bool)
          → delay < t - last
          → handle is_utf8 late room transaction_id t opened pin drop_check h
            ≡ (ok done, record h { port = none }))
      × ((t : ℕ) (opened : Option Stream) (pin : Option Bool)
          → t - last ≤ delay
          → handle is_utf8 late room transaction_id t opened pin drop_check h ≡ (ok done, h))

  abbrev pub LeavesPortUntil :
      Params → (drop_delay last_request : ℕ) → Outcome Response × Handler → Type 0
  LeavesPortUntil p delay last (ok ret, h) = IsOpenUntil p delay last h
  LeavesPortUntil p delay last (err (protocol e), h) = IsOpenUntil p delay last h
  LeavesPortUntil p delay last (err (transport e), h) = IsClosed h
  LeavesPortUntil p delay last (err (argument e), h) = IsClosed h
  LeavesPortUntil p delay last (err (internal e), h) = IsClosed h
  LeavesPortUntil p delay last (hangs, h) = ⊥
