-- ===== src/Client/Can.antt =====
-- client/src/can.rs: what a client sends to a CAN bus, and its subscriptions. The notifications that
-- the channel of a subscription has room for are a list.
use comsrv.Base.{true, List, [], ◌∷◌, Option, none, some}
use comsrv.Protocol.Can.{
  CanInstrument, DataFrame, RemoteFrame, data_frame, remote_frame, GctMessage, CanRequest, tx_raw,
  tx_gct, listen_raw, listen_gct, CanResponse, raw, started, stopped,
}
use comsrv.Client.{unexpected_response, Reply, ok, err, Request, Response, Call, ◌>>=◌, lift}

pub data Message : Type 0 where
  raw_data : DataFrame → Message
  raw_remote : RemoteFrame → Message
  gct : GctMessage → Message

unfoldable pub can_request : Message → CanRequest
can_request (raw_data msg) = tx_raw (data_frame msg)
can_request (raw_remote msg) = tx_raw (remote_frame msg)
can_request (gct msg) = tx_gct msg

unfoldable pub send_reply : Response → Reply (Unit {0})
send_reply (Response.can source CanResponse.done) = ok tt
send_reply (Response.can source started) = err unexpected_response
send_reply (Response.can source stopped) = err unexpected_response
send_reply (Response.can source (raw msg)) = err unexpected_response
send_reply (Response.can source (CanResponse.gct msg)) = err unexpected_response
send_reply (Response.error e) = err unexpected_response
send_reply (Response.bytes x) = err unexpected_response
send_reply (Response.locked lock_id) = err unexpected_response
send_reply Response.done = err unexpected_response

module _ {A S : Type 0} (rpc : Request A → Call S Response) (instrument : CanInstrument) where
  unfoldable pub connect : Call S (Unit {0})
  connect = rpc (Request.can instrument (listen_raw true) none) >>= λ a.
      rpc (Request.can instrument (listen_gct true) none) >>= λ b. lift (ok tt)

  unfoldable pub send : Message → Call S (Unit {0})
  unfolding can_request send_reply
  send msg = rpc (Request.can instrument (can_request msg) none) >>= λ ret. lift (send_reply ret)

-- The message of a notification. The source is not looked at.
unfoldable pub message_of : Response → Option Message
message_of (Response.can source (raw (data_frame msg))) = some (raw_data msg)
message_of (Response.can source (raw (remote_frame msg))) = some (raw_remote msg)
message_of (Response.can source (CanResponse.gct msg)) = some (gct msg)
message_of (Response.can source CanResponse.done) = none
message_of (Response.can source started) = none
message_of (Response.can source stopped) = none
message_of (Response.error e) = none
message_of (Response.bytes x) = none
message_of (Response.locked lock_id) = none
message_of Response.done = none

module _ {U : Type 0} (filter : Message → Option U) where
  unfoldable pub filtered : Option Message → Option U
  filtered none = none
  filtered (some msg) = filter msg

  unfoldable pub prepend : Option U → List U → List U
  prepend none values = values
  prepend (some value) values = value ∷ values

  -- `subscriber_task`: what the receiver of the subscription gets, in order.
  unfoldable pub subscribe : List Response → List U
  unfolding message_of filtered prepend
  subscribe [] = []
  subscribe (x ∷ notifications) = prepend (filtered (message_of x)) (subscribe notifications)
