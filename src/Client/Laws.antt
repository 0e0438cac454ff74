-- ===== src/Client/Laws.antt =====
-- The client together with the server: the lock of an instrument, and ModBus requests.
use comsrv.Base.{
  ℕ, ◌*◌, ◌<◌, ◌≤◌, ◌≡◌, refl, sym, subst, Bool, List, [], ◌∷◌, ◌++◌, Option, none, some, All,
  length, IsU16, arith,
}
use comsrv.Protocol.Error.{Error, protocol_timeout}
use comsrv.Protocol.Error as ServerError
use comsrv.Stream.{Stream, Outcome}
use comsrv.Stream as Server
use comsrv.Stream.Laws.{Waits}
use comsrv.ByteStream.{ByteStreamRequest, ByteStreamResponse, handle as handle_byte_stream}
use comsrv.ModBus.Handle.{ModBusRequest, rtu, number, handle as handle_mod_bus}
use comsrv.ModBus.Handle.Laws.{handle-read_holding, served}
use comsrv.ModBus.Crc.{with_crc}
use comsrv.ModBus.Registers.{words_bytes, to_be_bytes}
use comsrv.Inventory.{Inventory, wait_for_lock}
use comsrv.Inventory.Locking.{after_lock, lock-wait_for_lock}
use comsrv.Inventory as Store
use comsrv.Client.{
  ClientError, Reply, ok, err, Request, Response, Call, check_lock, new_guard, guard_locked,
}
use comsrv.Client.ModBus.{
  ModBusPipe, request, mod_bus_of, read_holding, read_single_holding, numbers_of, single,
}

-- The response of the server, by the outcome of the byte stream request on the connection.
abbrev pub responded : Outcome ByteStreamResponse × Stream → Reply Response × Stream
responded (Server.ok ret, s) = (ok (Response.bytes ret), s)
responded (Server.err e, s) = (ok (Response.error e), s)
responded (Server.hangs, s) = (err ClientError.timeout, s)

module _ {A : Type 0} (rpc : Request A → Call Stream Response) where
  -- The server handles the requests for this instrument on the connection that is the state.
  abbrev pub Serves : (is_utf8 : List ℕ → Bool) (transaction_id : ℕ) → A → Type 0
  Serves is_utf8 transaction_id instrument =
      (req : ByteStreamRequest) (lock_id : Option ℕ) (s : Stream)
      → rpc (Request.bytes instrument req lock_id) s
        ≡ responded (handle_byte_stream is_utf8 transaction_id req s)

  -- A client that reads 1 to 125 holding registers over RTU, from a server that handles the request
  -- on a connection that has to wait and takes writes, gets exactly the words that the station
  -- replies with, and one word where it reads a single register.
  pub read_holding-words :
      (is_utf8 : List ℕ → Bool) (transaction_id addr : ℕ) (ws rest : List ℕ) (pipe : ModBusPipe A)
      (s : Stream)
      → Serves is_utf8 transaction_id pipe.instrument
      → pipe.protocol ≡ rtu
      → Waits s
      → s.write_error ≡ none
      → s.incoming ≡ with_crc (pipe.station_address ∷ 3 ∷ 2 * length ws ∷ words_bytes ws) ++ rest
      → pipe.station_address < 256
      → 1 ≤ length ws
      → length ws ≤ 125
      → All IsU16 ws
      → (read_holding rpc pipe addr (length ws) s ≡ (
        ok ws,
        served s (pipe.station_address ∷ 3 ∷ to_be_bytes addr ++ to_be_bytes (length ws)) rest,
      ))
        × ((w : ℕ) → ws ≡ w ∷ [] → (read_single_holding rpc pipe addr s).0 ≡ ok w)
  unfolding read_holding read_single_holding request mod_bus_of numbers_of single handle_byte_stream
  read_holding-words is_utf8 transaction_id addr ws rest pipe s serves p w we e st h k u =
      let station = pipe.station_address in
      let task = ModBusRequest.read_holding addr (length ws) in
      let served_words =
        subst
          (λ q. handle_mod_bus transaction_id station q task s ≡ (
            Server.ok (number ws),
            served s (station ∷ 3 ∷ to_be_bytes addr ++ to_be_bytes (length ws)) rest,
          ))
          (sym p) (handle-read_holding transaction_id station addr ws rest s w we e st h k u) in
      let asked =
        serves (ByteStreamRequest.mod_bus station pipe.protocol task) (check_lock pipe.lock).0 s in
      let whole : read_holding rpc pipe addr (length ws) s
          ≡ (ok ws, served s (station ∷ 3 ∷ to_be_bytes addr ++ to_be_bytes (length ws)) rest) =
        rw (asked, served_words) refl in
      (
        whole,
        λ v eq.
            rw
              (subst
                (λ (l : List ℕ). read_holding rpc pipe addr (length l) s ≡ (
                  ok l,
                  served s (station ∷ 3 ∷ to_be_bytes addr ++ to_be_bytes (length l)) rest,
                ))
                eq whole)
              refl,
      )

module _ {K I : Type 0} (same : Discrete K) (open_instrument : K → ServerError.Result I) where
  -- A client that has locked an instrument, and whose lock is the only one there, sends its requests
  -- without the id of the lock: each of them has to wait for the client's own lock.
  pub wait_for_lock-check_lock :
      (id : ℕ) (addr : K) (s : Inventory K I)
      → (Store.lock same open_instrument id addr s).0 ≡ ServerError.ok id
      → wait_for_lock same addr
          (check_lock (guard_locked (new_guard addr id))).0
          (after_lock same open_instrument id addr s)
        ≡ some id
  unfolding check_lock guard_locked new_guard
  wait_for_lock-check_lock id addr s e =
      (lock-wait_for_lock same open_instrument id addr s e).1 none (ground arith)
