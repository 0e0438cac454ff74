-- ===== src/Protocol/Error.antt =====
-- protocol/src/error.rs, and the `Result` of the server. The text of a message is not modelled.
use comsrv.Base.{ℕ, Bool, true, false}

-- The kinds of `std::io::Error` that the code distinguishes.
pub data ErrorKind : Type 0 where
  connection_reset connection_aborted broken_pipe timed_out unexpected_eof other : ErrorKind

-- comsrv/src/protocol/modbus/mod.rs: it is carried by an `anyhow::Error`.
pub data ModBusException : Type 0 where
  invalid_function invalid_data_address invalid_data_value server_device_failure : ModBusException
  acknowledge server_device_busy negative_acknowledgement memory_parity_error : ModBusException
  gateway_path_unavailable gateway_target_failed_to_respond : ModBusException
  unknown : ℕ → ModBusException

pub data Anyhow : Type 0 where
  message : Anyhow
  exception : ModBusException → Anyhow

pub data TransportError : Type 0 where
  io : ErrorKind → TransportError
  other : Anyhow → TransportError

pub data ProtocolError : Type 0 where
  io : ErrorKind → ProtocolError
  timeout : ProtocolError
  unexpected_response : ProtocolError
  other : Anyhow → ProtocolError

pub data Error : Type 0 where
  transport : TransportError → Error
  protocol : ProtocolError → Error
  argument : Anyhow → Error
  internal : Anyhow → Error

abbrev pub protocol_timeout : Error
protocol_timeout = Error.protocol ProtocolError.timeout

-- `Error::protocol(anyhow!(…))`, `Error::argument(anyhow!(…))`, `Error::internal(anyhow!(…))`.
abbrev pub protocol_error : Error
protocol_error = Error.protocol (ProtocolError.other message)

abbrev pub argument_error : Error
argument_error = Error.argument message

abbrev pub internal_error : Error
internal_error = Error.internal message

pub should_retry_kind : ErrorKind → Bool
should_retry_kind ErrorKind.other = false
should_retry_kind connection_reset = true
should_retry_kind connection_aborted = true
should_retry_kind broken_pipe = true
should_retry_kind timed_out = true
should_retry_kind unexpected_eof = true

unfoldable pub should_retry : Error → Bool
unfolding should_retry_kind
should_retry (transport (io kind)) = should_retry_kind kind
should_retry (transport (TransportError.other e)) = false
should_retry (protocol e) = false
should_retry (argument e) = false
should_retry (internal e) = false

unfoldable pub is_transport_error : Error → Bool
is_transport_error (transport e) = true
is_transport_error (protocol e) = false
is_transport_error (argument e) = false
is_transport_error (internal e) = false

pub data Result {ℓ} (A : Type ℓ) : Type ℓ where
  ok : A → Result A
  err : Error → Result A

infixl 5 ◌>>=◌ ◌>>◌
abbrev pub ◌>>=◌ {ℓ κ} : {A : Type ℓ} {B : Type κ} → Result A → (A → Result B) → Result B
ok a >>= f = f a
err e >>= f = err e

abbrev pub ◌>>◌ {ℓ κ} : {A : Type ℓ} {B : Type κ} → Result A → Result B → Result B
m >> k = m >>= λ _. k
