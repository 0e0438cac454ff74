-- ===== src/Transport/CobsStream.antt =====
-- comsrv/src/protocol/cobs_stream.rs: the handle of the task that
-- sends and receives COBS frames on a connection, and the transmitting half of the task. How many
-- bytes one call of `AsyncWriteExt::write` takes is a parameter.
pub mod Laws
use comsrv.Base.{
  ℕ, Bool, true, false, List, [], ◌∷◌, ◌++◌, Option, none, some, not, ◌&&◌, take, if◌then◌else◌,
}
use comsrv.Protocol.Error.{ErrorKind, Error, Result, ok, err, transport, io, internal_error}
use comsrv.Stream.{Stream}
use comsrv.Cobs.{cobs_encode}

-- `cancelled` once the sender of `cancel` was taken, `ended` once the task is over, and `queue` has
-- the frames that were sent to the task.
pub record CobsStream : Type 0 where
  pub connection : Stream
  pub use_crc : Bool
  pub cancelled : Bool
  pub ended : Bool
  pub queue : List (List ℕ)

unfoldable pub start : Stream → Bool → CobsStream
start connection use_crc = record {
  connection = connection;
  use_crc = use_crc;
  cancelled = false;
  ended = false;
  queue = [];
}

unfoldable pub send : List ℕ → CobsStream → Result CobsStream
send payload c =
    if c.ended then err internal_error else ok (record c { queue = c.queue ++ (payload ∷ []) })

-- `cancel`, and `drop`.
unfoldable pub cancel : CobsStream → CobsStream
cancel c = record c { cancelled = true }

unfoldable pub is_alive : CobsStream → Bool
is_alive c = not c.cancelled && not c.ended

-- What ends the `select!` of the task, and the error of the `InstrumentDropped` that it broadcasts.
pub data TaskEnd : Type 0 where
  decoder_failed : ErrorKind → TaskEnd
  encoder_ended : Option ErrorKind → TaskEnd
  cancel_received : TaskEnd

unfoldable pub dropped_error : TaskEnd → Option Error
dropped_error (decoder_failed kind) = some (transport (io kind))
dropped_error (encoder_ended (some kind)) = some (transport (io kind))
dropped_error (encoder_ended none) = none
dropped_error cancel_received = none

module _ (room : List ℕ → Stream → ℕ) where
  unfoldable pub write : Option ErrorKind → List ℕ → Stream → Option ErrorKind × Stream
  write (some kind) bytes s = (some kind, s)
  write none bytes s = (none, record s { outgoing = s.outgoing ++ take (room bytes s) bytes })

  unfoldable pub transmit_next :
      (Stream → Option ErrorKind × Stream) → Option ErrorKind × Stream → Option ErrorKind × Stream
  transmit_next rest (some kind, s) = (some kind, s)
  transmit_next rest (none, s) = rest s

  -- All frames of the channel, up to where it is closed.
  unfoldable pub transmit_frames : List (List ℕ) → Stream → Option ErrorKind × Stream
  unfolding write transmit_next
  transmit_frames [] s = (none, s)
  transmit_frames (tx ∷ frames) s =
      transmit_next (transmit_frames frames) (write s.write_error (cobs_encode tx) s)
