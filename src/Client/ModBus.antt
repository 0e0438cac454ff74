-- ===== src/Client/ModBus.antt =====
-- client/src/modbus.rs: the requests of a client to a ModBus station.
use comsrv.Base.{ℕ, Bool, List, [], ◌∷◌}
use comsrv.ByteStream.{ByteStreamRequest, ByteStreamResponse}
use comsrv.ModBus.Handle.{
  ModBusProtocol, ModBusRequest, ModBusResponse, done, number, bool, payload,
}
use comsrv.Client.{
  ClientError, unexpected_response, remote, Reply, ok, err, Request, Response, Call, and_then,
  ◌>>=◌, lift, Locked, new_locked, check_lock, LockGuard, guard_locked,
}
use comsrv.Client

pub record ModBusPipe (A : Type 0) : Type 0 where
  pub instrument : A
  pub lock : Locked
  pub station_address : ℕ
  pub protocol : ModBusProtocol

unfoldable pub new : {A : Type 0} → A → ℕ → ModBusProtocol → ModBusPipe A
unfolding new_locked
new instrument station_address protocol = record {
  instrument = instrument;
  lock = new_locked;
  station_address = station_address;
  protocol = protocol;
}

unfoldable pub set_station_address : {A : Type 0} → ℕ → ModBusPipe A → ModBusPipe A
set_station_address station_address pipe = record pipe { station_address = station_address }

unfoldable pub mod_bus_of : Response → Reply ModBusResponse
mod_bus_of (Response.bytes (ByteStreamResponse.mod_bus x)) = ok x
mod_bus_of (Response.bytes ByteStreamResponse.done) = err unexpected_response
mod_bus_of (Response.bytes (ByteStreamResponse.bytes x)) = err unexpected_response
mod_bus_of (Response.bytes (ByteStreamResponse.string x)) = err unexpected_response
mod_bus_of (Response.error e) = err (remote e)
mod_bus_of (Response.can source x) = err unexpected_response
mod_bus_of (Response.locked lock_id) = err unexpected_response
mod_bus_of Response.done = err unexpected_response

unfoldable pub bools_of : ModBusResponse → Reply (List Bool)
bools_of (bool ret) = ok ret
bools_of done = err unexpected_response
bools_of (number ret) = err unexpected_response
bools_of (payload ret) = err unexpected_response

unfoldable pub numbers_of : ModBusResponse → Reply (List ℕ)
numbers_of (number ret) = ok ret
numbers_of done = err unexpected_response
numbers_of (bool ret) = err unexpected_response
numbers_of (payload ret) = err unexpected_response

unfoldable pub done_of : ModBusResponse → Reply (Unit {0})
done_of done = ok tt
done_of (number ret) = err unexpected_response
done_of (bool ret) = err unexpected_response
done_of (payload ret) = err unexpected_response

unfoldable pub payload_of : ModBusResponse → Reply (List ℕ)
payload_of (payload ret) = ok ret
payload_of done = err unexpected_response
payload_of (number ret) = err unexpected_response
payload_of (bool ret) = err unexpected_response

-- `ret[0]`, if there is exactly one.
unfoldable pub single : {B : Type 0} → List B → Reply B
single (x ∷ []) = ok x
single [] = err unexpected_response
single (x ∷ y ∷ rest) = err unexpected_response

module _ {A S : Type 0} (rpc : Request A → Call S Response) (pipe : ModBusPipe A) where
  unfoldable pub request : ModBusRequest → Call S ModBusResponse
  unfolding mod_bus_of check_lock
  request task =
      rpc (
        Request.bytes pipe.instrument
          (ByteStreamRequest.mod_bus pipe.station_address pipe.protocol task)
          (check_lock pipe.lock).0)
      >>= λ ret. lift (mod_bus_of ret)

  unfoldable pub read_coil : ℕ → ℕ → Call S (List Bool)
  unfolding request bools_of
  read_coil addr cnt = request (ModBusRequest.read_coil addr cnt) >>= λ ret. lift (bools_of ret)

  unfoldable pub read_single_coil : ℕ → Call S Bool
  unfolding read_coil single
  read_single_coil addr = read_coil addr 1 >>= λ ret. lift (single ret)

  unfoldable pub read_discrete : ℕ → ℕ → Call S (List Bool)
  unfolding request bools_of
  read_discrete addr cnt =
      request (ModBusRequest.read_discrete addr cnt) >>= λ ret. lift (bools_of ret)

  unfoldable pub read_single_discrete : ℕ → Call S Bool
  unfolding read_discrete single
  read_single_discrete addr = read_discrete addr 1 >>= λ ret. lift (single ret)

  unfoldable pub read_input : ℕ → ℕ → Call S (List ℕ)
  unfolding request numbers_of
  read_input addr cnt = request (ModBusRequest.read_input addr cnt) >>= λ ret. lift (numbers_of ret)

  unfoldable pub read_single_input : ℕ → Call S ℕ
  unfolding read_input single
  read_single_input addr = read_input addr 1 >>= λ ret. lift (single ret)

  unfoldable pub read_holding : ℕ → ℕ → Call S (List ℕ)
  unfolding request numbers_of
  read_holding addr cnt =
      request (ModBusRequest.read_holding addr cnt) >>= λ ret. lift (numbers_of ret)

  unfoldable pub read_single_holding : ℕ → Call S ℕ
  unfolding read_holding single
  read_single_holding addr = read_holding addr 1 >>= λ ret. lift (single ret)

  unfoldable pub write_coils : ℕ → List Bool → Call S (Unit {0})
  unfolding request done_of
  write_coils addr values =
      request (ModBusRequest.write_coils addr values) >>= λ ret. lift (done_of ret)

  unfoldable pub write_register : ℕ → List ℕ → Call S (Unit {0})
  unfolding request done_of
  write_register addr values =
      request (ModBusRequest.write_registers addr values) >>= λ ret. lift (done_of ret)

  unfoldable pub write_single_register : ℕ → ℕ → Call S (Unit {0})
  unfolding request done_of
  write_single_register addr value =
      request (ModBusRequest.write_registers addr (value ∷ [])) >>= λ ret. lift (done_of ret)

  unfoldable pub ddp : ℕ → ℕ → Bool → List ℕ → Call S (List ℕ)
  unfolding request payload_of
  ddp sub_cmd ddp_cmd response bytes =
      request (ModBusRequest.ddp sub_cmd ddp_cmd response bytes) >>= λ ret. lift (payload_of ret)

  -- `Lockable::lock`: the guard, and the pipe with its lock.
  unfoldable pub lock_pipe : (duration : ℕ) → Call S (LockGuard A × ModBusPipe A)
  unfolding Client.lock guard_locked
  lock_pipe duration = Client.lock rpc pipe.instrument duration >>= λ guard.
      lift (ok (guard, record pipe { lock = guard_locked guard }))
