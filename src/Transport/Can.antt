-- ===== src/Transport/Can.antt =====
-- comsrv/src/transport/can.rs: the handler of a CAN device, which sends the frames. The crate
-- async_can and the adapters are parameters: whether a frame is accepted, whether connecting fails,
-- and whether sending fails after what was sent before. A panic is a value of its own.
pub mod Listener
pub mod Laws
pub mod Loopback
use Prim.Native.String.{String}
use comsrv.Base.{
  ℕ, zero, suc, ◌+◌, Bool, true, false, List, [], ◌∷◌, ◌++◌, Option, none, some, not, ltb, ◌!=◌,
  if◌then◌else◌,
}
use comsrv.Protocol.Error.{
  ErrorKind, Error, Result, ok, err, transport, io, argument_error, internal_error, should_retry,
  message, TransportError,
}
use comsrv.Protocol.Can.{
  CanInstrument, pcan, socket_can, usr_canet, loopback, CanMessage, CanRequest, CanResponse,
  listen_raw, listen_gct, stop_all, enable_loopback, tx_raw, tx_gct, started, stopped, done, Run,
  returns, panics,
}
use comsrv.Gct.Encode.{encode}
use comsrv.Transport.Can.Listener.{ListenerMsg, enable_gct, enable_raw, loop_back, close}

pub data CanError : Type 0 where
  io_error : ErrorKind → CanError
  other_error : CanError

unfoldable pub map_error : CanError → Error
map_error (io_error kind) = transport (io kind)
map_error other_error = transport (TransportError.other message)

-- What was sent, in order, on the loopback adapter or on a bus.
pub data CanSender : Type 0 where
  on_loopback : List CanMessage → CanSender
  on_bus : List CanMessage → CanSender

-- The sending side of the channel to a listener, with what was sent; `closed` once the task is over.
pub record Mailbox : Type 0 where
  pub closed : Bool
  pub messages : List ListenerMsg

-- `former` holds the channels that the handler has dropped, the last one first. A listener whose
-- channel is dropped ends.
pub record Handler : Type 0 where
  pub last_instrument : Option CanInstrument
  pub sender : Option CanSender
  pub listener : Option Mailbox
  pub loopback : Bool
  pub former : List Mailbox

pub record Request : Type 0 where
  pub inner : CanRequest
  pub instrument : CanInstrument

unfoldable pub new : Handler
new = record {
  last_instrument = none;
  sender = none;
  listener = none;
  loopback = false;
  former = [];
}

-- `UnboundedSender::send`, whose error is ignored.
unfoldable pub post : ListenerMsg → Mailbox → Mailbox
post msg tx = if tx.closed then tx else record tx { messages = tx.messages ++ (msg ∷ []) }

unfoldable pub check_open : Option Mailbox → Handler → Handler
check_open none h = h
check_open (some tx) h =
    if tx.closed then record h { sender = none; listener = none; former = tx ∷ h.former } else h

unfoldable pub check_listener : Handler → Handler
unfolding check_open
check_listener h = check_open h.listener h

-- The handler waits until the listener has closed its device.
unfoldable pub close_open : Option Mailbox → Handler → Handler
unfolding post
close_open none h = h
close_open (some tx) h = record h { listener = none; former = post close tx ∷ h.former }

unfoldable pub close_listener : Handler → Handler
unfolding close_open
close_listener h = close_open h.listener h

unfoldable pub other_bitrate : CanInstrument → Option CanInstrument → Bool
other_bitrate (pcan address bitrate) (some (pcan old_address old_bitrate)) = old_bitrate != bitrate
other_bitrate _ _ = false

unfoldable pub update_bitrate : CanInstrument → Handler → Handler
unfolding close_listener other_bitrate
update_bitrate instr h =
    let reopened = record (close_listener h) { sender = none } in
    record (if other_bitrate instr h.last_instrument then reopened else h) {
      last_instrument = some instr;
    }

-- A channel that is dropped, if there is one.
unfoldable pub forget : Option Mailbox → List Mailbox → List Mailbox
forget none former = former
forget (some tx) former = tx ∷ former

-- `make_sender_and_receiver` on Linux; connecting to an adapter fails with `refused`.
unfoldable pub connect_bus : Option CanError → Result CanSender
unfolding map_error
connect_bus (some e) = err (map_error e)
connect_bus none = ok (on_bus [])

unfoldable pub make_sender : (refused : Option CanError) → CanInstrument → Result CanSender
unfolding connect_bus
make_sender refused (pcan address bitrate) = connect_bus refused
make_sender refused (socket_can interface) = connect_bus refused
make_sender refused (usr_canet host port) = connect_bus refused
make_sender refused loopback = ok (on_loopback [])

-- The sender and the channel of the listener that is spawned with the receiver.
unfoldable pub opened : Result CanSender → Handler → Result (Unit {0}) × Handler
opened (ok device) h = (
  ok tt,
  record h { sender = some device; listener = some (record { closed = false; messages = [] }) },
)
opened (err e) h = (err e, h)

unfoldable pub both_open : Option CanSender → Option Mailbox → Bool
both_open (some device) (some listener) = true
both_open none listener = false
both_open (some device) none = false

unfoldable pub restart :
    (refused : Option CanError) → CanInstrument → Handler → Result (Unit {0}) × Handler
unfolding both_open opened make_sender forget
restart refused instr h =
    let closed = record h { sender = none; listener = none; former = forget h.listener h.former } in
    if both_open h.sender h.listener then (ok tt, h) else opened (make_sender refused instr) closed

module _ (accepted : CanMessage → Bool) (fault : List CanMessage → Option CanError) where
  unfoldable pub bus_result :
      Option CanError → List CanMessage → CanMessage → Result (Unit {0}) × CanSender
  unfolding map_error
  bus_result (some e) sent msg = (err (map_error e), on_bus sent)
  bus_result none sent msg = (ok tt, on_bus (sent ++ (msg ∷ [])))

  unfoldable pub send : CanMessage → CanSender → Result (Unit {0}) × CanSender
  unfolding bus_result
  send msg (on_loopback sent) = (ok tt, on_loopback (sent ++ (msg ∷ [])))
  send msg (on_bus sent) =
      if accepted msg then bus_result (fault sent) sent msg else (err argument_error, on_bus sent)

  -- A frame to the listener, if loopback is enabled, and to the device.
  unfoldable pub transmit :
      Bool → CanMessage → CanSender → Mailbox → Result (Unit {0}) × CanSender × Mailbox
  unfolding send post
  transmit en msg device listener =
      let (ret, device') = send msg device in
      (ret, device', if en then post (loop_back msg) listener else listener)

  unfoldable pub transmit_next :
      (CanSender → Mailbox → Result (Unit {0}) × CanSender × Mailbox)
      → Result (Unit {0}) × CanSender × Mailbox
      → Result (Unit {0}) × CanSender × Mailbox
  transmit_next rest (ok a, device, listener) = rest device listener
  transmit_next rest (err e, device, listener) = (err e, device, listener)

  -- `for msg in msgs`, up to the first error.
  unfoldable pub transmit_all :
      Bool → List CanMessage → CanSender → Mailbox → Result (Unit {0}) × CanSender × Mailbox
  unfolding transmit transmit_next
  transmit_all en [] device listener = (ok tt, device, listener)
  transmit_all en (msg ∷ msgs) device listener =
      transmit_next (transmit_all en msgs) (transmit en msg device listener)

  unfoldable pub transmit_encoded :
      Bool
      → Result (List CanMessage)
      → CanSender
      → Mailbox
      → Result (Unit {0}) × CanSender × Mailbox
  unfolding transmit_all
  transmit_encoded en (ok msgs) device listener = transmit_all en msgs device listener
  transmit_encoded en (err e) device listener = (err e, device, listener)

  -- What is left of the handler, with `CanResponse::Ok` or the error.
  unfoldable pub sent_with :
      Handler → Result (Unit {0}) × CanSender × Mailbox → Result CanResponse × Handler
  sent_with h (ok a, device, listener) =
      (ok done, record h { sender = some device; listener = some listener })
  sent_with h (err e, device, listener) =
      (err e, record h { sender = some device; listener = some listener })

  unfoldable pub posted : ListenerMsg → Mailbox → Handler → Handler
  unfolding post
  posted msg listener h = record h { listener = some (post msg listener) }

  -- `handle_request` after the two calls of `unwrap`.
  unfoldable pub request_on :
      CanRequest → CanSender → Mailbox → Handler → Result CanResponse × Handler
  unfolding posted post sent_with transmit transmit_encoded
  request_on (listen_raw en) device listener h = (ok started, posted (enable_raw en) listener h)
  request_on stop_all device listener h =
      (ok stopped, posted (enable_gct false) (post (enable_raw false) listener) h)
  request_on (tx_raw msg) device listener h = sent_with h (transmit h.loopback msg device listener)
  request_on (listen_gct en) device listener h = (ok started, posted (enable_gct en) listener h)
  request_on (tx_gct msg) device listener h =
      sent_with h (transmit_encoded h.loopback (encode msg) device listener)
  request_on (enable_loopback en) device listener h = (ok done, record h { loopback = en })

  unfoldable pub request_with :
      CanRequest → Option CanSender → Option Mailbox → Handler → Run (Result CanResponse × Handler)
  unfolding request_on
  request_with req (some device) (some listener) h = returns (request_on req device listener h)
  request_with req none listener h = panics
  request_with req (some device) none h = panics

  unfoldable pub handle_request : CanRequest → Handler → Run (Result CanResponse × Handler)
  unfolding request_with
  handle_request req h = request_with req h.sender h.listener h

  -- The error is returned, or the handler tries again without sender and listener.
  unfoldable pub try_again :
      (retries : ℕ)
      → (Handler → Run (Result CanResponse × Handler))
      → Run (Result CanResponse × Handler)
      → Run (Result CanResponse × Handler)
  try_again retries rest panics = panics
  try_again retries rest (returns (ok ret, h)) = returns (ok ret, h)
  try_again retries rest (returns (err e, h)) =
      if ltb 3 retries
      then returns (err e, h)
      else if should_retry e
      then rest (record h { sender = none; listener = none; former = forget h.listener h.former })
      else returns (err e, h)

  -- The loop of `handle`. It ends at the fourth error, so four rounds are enough.
  unfoldable pub retry_loop :
      (fuel retries : ℕ) → CanRequest → Handler → Run (Result CanResponse × Handler)
  unfolding try_again handle_request
  retry_loop zero retries req h = returns (err internal_error, h)
  retry_loop (suc fuel) retries req h =
      try_again (suc retries) (retry_loop fuel (suc retries) req) (handle_request req h)

  unfoldable pub handle_open :
      CanRequest → Result (Unit {0}) × Handler → Run (Result CanResponse × Handler)
  unfolding retry_loop
  handle_open req (err e, h) = returns (err e, h)
  handle_open req (ok a, h) = retry_loop 4 0 req h

  unfoldable pub handle : Option CanError → Request → Handler → Run (Result CanResponse × Handler)
  unfolding handle_open restart update_bitrate check_listener
  handle refused req h =
      handle_open req.inner
        (restart refused req.instrument (update_bitrate req.instrument (check_listener h)))
