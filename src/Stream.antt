-- ===== src/Stream.antt =====
-- What the protocol code sees of a connection: an `AsyncRead + AsyncWrite` whose bytes arrive in two
-- parts, and `read_all` of comsrv/src/protocol/bytestream/mod.rs.
pub mod Laws
pub mod Outgoing
pub mod Total
use comsrv.Base.{
  ℕ, zero, suc, ◌+◌, Bool, true, false, List, [], ◌∷◌, ◌++◌, Option, none, some, length, take, drop,
}
use comsrv.Protocol.Error.{
  ErrorKind, unexpected_eof, Error, transport, io, Result, protocol_timeout,
}

-- What happens to a read once all bytes have come: it waits for ever, the peer has closed the
-- connection, or the read fails.
pub data Ending : Type 0 where
  silent closed : Ending
  broken : ErrorKind → Ending

-- `pending` has arrived, `incoming` is still to come, and `outgoing` was written.
pub record Stream : Type 0 where
  pub pending : List ℕ
  pub incoming : List ℕ
  pub ending : Ending
  pub outgoing : List ℕ
  pub write_error : Option ErrorKind

-- The result of a request; `hangs` where a loop would go on for ever, or runs out of its fuel.
pub data Outcome {ℓ} (A : Type ℓ) : Type ℓ where
  ok : A → Outcome A
  err : Error → Outcome A
  hangs : Outcome A

abbrev pub Io : Type 0 → Type 0
Io A = Stream → Outcome A × Stream

abbrev pub and_then : {A B : Type 0} → Outcome A × Stream → (A → Io B) → Outcome B × Stream
and_then (ok a, s) f = f a s
and_then (err e, s) f = (err e, s)
and_then (hangs, s) f = (hangs, s)

infixl 5 ◌>>=◌ ◌>>◌
abbrev pub ◌>>=◌ : {A B : Type 0} → Io A → (A → Io B) → Io B
◌>>=◌ m f s = and_then (m s) f

abbrev pub ◌>>◌ : {A B : Type 0} → Io A → Io B → Io B
m >> k = m >>= λ _. k

abbrev pub pure : {A : Type 0} → A → Io A
pure a s = (ok a, s)

abbrev pub raise : {A : Type 0} → Error → Io A
raise e s = (err e, s)

abbrev pub lift : {A : Type 0} → Result A → Io A
lift (Result.ok a) s = (ok a, s)
lift (Result.err e) s = (err e, s)

-- A read that waits for ever ends by the timeout of the request around it.
unfoldable pub end_error : Ending → Error
end_error silent = protocol_timeout
end_error closed = transport (io unexpected_eof)
end_error (broken kind) = transport (io kind)

read_from : List ℕ → List ℕ → Io ℕ
unfolding end_error
read_from [] [] s = (err (end_error s.ending), s)
read_from [] (b ∷ rest) s = (ok b, record s { incoming = rest })
read_from (b ∷ rest) incoming s = (ok b, record s { pending = rest })

-- `AsyncReadExt::read_u8`, with the error conversion of `?` and of `map_err(Error::transport)`.
unfoldable pub read_u8 : Io ℕ
unfolding read_from
read_u8 s = read_from s.pending s.incoming s

-- `AsyncReadExt::read_exact` into a buffer of `n` bytes.
unfoldable pub read_exact : ℕ → Io (List ℕ)
unfolding read_u8
read_exact zero = pure []
read_exact (suc n) = do b ← read_u8; bs ← read_exact n; pure (b ∷ bs)

write_with : Option ErrorKind → List ℕ → Io (Unit {0})
write_with none bytes s = (ok tt, record s { outgoing = s.outgoing ++ bytes })
write_with (some kind) bytes s = (err (transport (io kind)), s)

-- `AsyncWriteExt::write_all`
unfoldable pub write_all : List ℕ → Io (Unit {0})
unfolding write_with
write_all bytes s = write_with s.write_error bytes s

pub data Poll : Type 0 where
  ready : List ℕ → Poll
  failed : ErrorKind → Poll
  pending : Poll

abbrev pub poll_end : List ℕ → Ending → Poll
poll_end (b ∷ incoming) ending = Poll.pending
poll_end [] silent = Poll.pending
poll_end [] closed = ready []
poll_end [] (broken kind) = failed kind

poll_from : List ℕ → Stream → Poll × Stream
poll_from [] s = (poll_end s.incoming s.ending, s)
poll_from (b ∷ bytes) s =
    (ready (take 1000 (b ∷ bytes)), record s { pending = drop 1000 (b ∷ bytes) })

-- `poll_read` into a buffer of 1000 bytes: at the end of the stream it is ready with no byte.
unfoldable pub poll_read : Stream → Poll × Stream
unfolding poll_from
poll_read s = poll_from s.pending s

-- The loop of `ReadAll::poll`. A task of tokio has a budget of reads that are ready in one poll;
-- when it is used up, a read is pending.
unfoldable pub read_all_loop : (budget : ℕ) → List ℕ → Stream → Result (List ℕ) × Stream
unfolding poll_read
read_all_loop zero ret s = (Result.ok ret, s)
read_all_loop (suc budget) ret s = elim (poll_read s).0 [
  | ready bytes ↦ read_all_loop budget (ret ++ bytes) (poll_read s).1
  | failed kind ↦ (Result.err (transport (io kind)), (poll_read s).1)
  | Poll.pending ↦ (Result.ok ret, (poll_read s).1)
]

-- The budget is taken to be enough for the bytes that have arrived.
unfoldable pub read_all : Io (List ℕ)
unfolding read_all_loop
read_all s = let (ret, s') = read_all_loop (length s.pending + 1) [] s in lift ret s'
