-- ===== src/Client.antt =====
-- The client library client/: its error type, the requests that it makes, and the lock of an
-- instrument (client/src/lib.rs). The connection to the server is a function on a state of its own;
-- addresses and instruments are types, and a lock's id is a number.
pub mod ModBus
pub mod ByteStream
pub mod Can
pub mod GctCan
pub mod Laws
use comsrv.Base.{ℕ, Bool, true, false, List, Option, none, some, not, if◌then◌else◌}
use comsrv.Protocol.Error.{Error, ErrorKind}
use comsrv.Protocol.Can.{CanInstrument, CanAddress, CanRequest, CanResponse}
use comsrv.ByteStream.{ByteStreamRequest, ByteStreamResponse}

-- client/src/lib.rs `Error`.
pub data ClientError : Type 0 where
  io : ErrorKind → ClientError
  timeout : ClientError
  endpoint_hang_up : ClientError
  unexpected_response : ClientError
  other : ClientError
  remote : Error → ClientError

pub data Reply {ℓ} (A : Type ℓ) : Type ℓ where
  ok : A → Reply A
  err : ClientError → Reply A

-- The requests that these modules make, for addresses `A`, and the responses that they tell apart.
pub data Request (A : Type 0) : Type 0 where
  bytes : A → ByteStreamRequest → Option ℕ → Request A
  can : CanInstrument → CanRequest → Option ℕ → Request A
  lock_request : A → (duration : ℕ) → Request A
  unlock_request : A → (id : ℕ) → Request A

pub data Response : Type 0 where
  error : Error → Response
  bytes : ByteStreamResponse → Response
  can : CanAddress → CanResponse → Response
  locked : (lock_id : ℕ) → Response
  done : Response

-- `ClientError` of broadcast_wsrpc.
pub data RpcError : Type 0 where
  io : ErrorKind → RpcError
  timeout receiver_hung_up sender_hung_up : RpcError

unfoldable pub from_rpc : RpcError → ClientError
from_rpc (RpcError.io kind) = ClientError.io kind
from_rpc RpcError.timeout = ClientError.timeout
from_rpc receiver_hung_up = endpoint_hang_up
from_rpc sender_hung_up = endpoint_hang_up

abbrev pub Call : Type 0 → Type 0 → Type 0
Call S B = S → Reply B × S

abbrev pub and_then : {S B C : Type 0} → Reply B × S → (B → Call S C) → Reply C × S
and_then (ok b, s) f = f b s
and_then (err e, s) f = (err e, s)

infixl 5 ◌>>=◌
abbrev pub ◌>>=◌ : {S B C : Type 0} → Call S B → (B → Call S C) → Call S C
◌>>=◌ m f s = and_then (m s) f

abbrev pub lift : {S B : Type 0} → Reply B → Call S B
lift r s = (r, s)

-- The flag `unlock` is shared by a guard and the locks made from it. No code stores into it, so that
-- a copy has its value.
pub record LockGuard (A : Type 0) : Type 0 where
  pub lock_id : ℕ
  pub addr : A
  pub unlock : Bool

pub record Locked : Type 0 where
  pub unlock : Bool
  pub lock_id : Option ℕ

unfoldable pub new_locked : Locked
new_locked = record { unlock = false; lock_id = none }

unfoldable pub check_lock : Locked → Option ℕ × Locked
check_lock l = if not l.unlock then (none, record l { lock_id = none }) else (l.lock_id, l)

module _ {A : Type 0} where
  unfoldable pub new_guard : A → ℕ → LockGuard A
  new_guard addr lock_id = record { lock_id = lock_id; addr = addr; unlock = false }

  unfoldable pub guard_locked : LockGuard A → Locked
  guard_locked g = record { unlock = g.unlock; lock_id = some g.lock_id }

  unfoldable pub lock_reply : A → Response → Reply (LockGuard A)
  unfolding new_guard
  lock_reply addr (locked lock_id) = ok (new_guard addr lock_id)
  lock_reply addr (error e) = err unexpected_response
  lock_reply addr (Response.bytes x) = err unexpected_response
  lock_reply addr (Response.can source x) = err unexpected_response
  lock_reply addr done = err unexpected_response

module _ {A S : Type 0} (rpc : Request A → Call S Response) where
  unfoldable pub lock : A → (duration : ℕ) → Call S (LockGuard A)
  unfolding lock_reply
  lock addr duration = rpc (lock_request addr duration) >>= λ ret. lift (lock_reply addr ret)

  unfoldable pub unlock : A → ℕ → Call S (Unit {0})
  unlock addr id = rpc (unlock_request addr id) >>= λ ret. lift (ok tt)
