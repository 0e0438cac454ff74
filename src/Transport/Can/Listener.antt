-- ===== src/Transport/Can/Listener.antt =====
-- The listener of comsrv/src/transport/can.rs: the task that owns the receiver of a CAN device and
-- broadcasts what it receives. Its events are a list, in the order in which `select!` takes them.
pub mod Laws
use comsrv.Base.{Bool, true, false, List, [], ◌∷◌, ◌++◌, Option, none, some, if◌then◌else◌}
use comsrv.Protocol.Error.{Error, Result, ok, err, is_transport_error}
use comsrv.Protocol.Can.{
  CanMessage, GctMessage, CanResponse, raw, gct, stopped, Run, returns, panics,
}
use comsrv.Gct.Decoder.{Decoder, reset, decode, new as new_decoder}

pub data ListenerMsg : Type 0 where
  enable_gct : Bool → ListenerMsg
  enable_raw : Bool → ListenerMsg
  loop_back : CanMessage → ListenerMsg
  close : ListenerMsg

-- What is broadcast to the clients: a response of this instrument, or an error.
pub data Broadcast : Type 0 where
  can : CanResponse → Broadcast
  error : Error → Broadcast

-- `device` tells whether the listener still has its receiver.
pub record Listener : Type 0 where
  pub listen_gct : Bool
  pub listen_raw : Bool
  pub decoder : Decoder
  pub device : Bool

unfoldable pub new : Listener
new = record { listen_gct = true; listen_raw = true; decoder = new_decoder; device = true }

-- The listener, whether it goes on, and what it has broadcast.
abbrev pub Round : Type 0
Round = Run (Bool × Listener × List Broadcast)

unfoldable pub rx_decoded : Listener → List Broadcast → Run (Decoder × Option GctMessage) → Round
rx_decoded l before (returns (d, none)) = returns (true, record l { decoder = d }, before)
rx_decoded l before (returns (d, some msg)) =
    returns (true, record l { decoder = d }, before ++ (can (gct msg) ∷ []))
rx_decoded l before panics = panics

unfoldable pub rx : CanMessage → Listener → Round
unfolding rx_decoded
rx msg l =
    let before = if l.listen_raw then can (raw msg) ∷ [] else [] in
    if l.listen_gct then rx_decoded l before (decode l.decoder msg) else returns (true, l, before)

unfoldable pub rx_control : ListenerMsg → Listener → Round
unfolding rx
rx_control (enable_gct en) l =
    let decoder = if l.listen_gct then l.decoder else reset l.decoder in
    returns (true, record l { decoder = decoder; listen_gct = en }, [])
rx_control (enable_raw en) l = returns (true, record l { listen_raw = en }, [])
rx_control (loop_back msg) l = rx msg l
rx_control close l = returns (false, record l { device = false }, [])

unfoldable pub err_broadcast : Error → Listener → Round
err_broadcast e l =
    if l.device
    then if is_transport_error e
      then returns (false, l, error e ∷ can stopped ∷ [])
      else returns (true, l, error e ∷ [])
    else returns (false, l, [])

-- `dropped`: all senders of the channel are gone.
pub data Event : Type 0 where
  control : ListenerMsg → Event
  dropped : Event
  received : Result CanMessage → Event

unfoldable pub received_with : Bool → Result CanMessage → Listener → Round
unfolding rx err_broadcast
received_with false x l = returns (false, l, [])
received_with true (ok msg) l = rx msg l
received_with true (err e) l = err_broadcast e l

unfoldable pub round : Event → Listener → Round
unfolding rx_control received_with
round (control msg) l = rx_control msg l
round dropped l = returns (false, l, [])
round (received x) l = received_with l.device x l

unfoldable pub broadcast_first : List Broadcast → Round → Round
broadcast_first before (returns (go, l, later)) = returns (go, l, before ++ later)
broadcast_first before panics = panics

unfoldable pub then_rounds : (Listener → Round) → Round → Round
unfolding broadcast_first
then_rounds rest (returns (true, l, before)) = broadcast_first before (rest l)
then_rounds rest (returns (false, l, before)) = returns (false, l, before)
then_rounds rest panics = panics

-- `listener_task` over these events: `true` where it still waits for more.
unfoldable pub listen : List Event → Listener → Round
unfolding then_rounds round
listen [] l = returns (true, l, [])
listen (event ∷ events) l = then_rounds (listen events) (round event l)
