-- ===== src/ByteStream.antt =====
-- comsrv/src/protocol/bytestream/mod.rs: the requests of a client on an open byte stream. A text is
-- the list of its bytes, and the check that bytes are UTF-8 is a parameter.
pub mod Laws
pub mod Requests
pub mod Total
use comsrv.Base.{
  ℕ, zero, suc, ◌+◌, Bool, true, false, List, [], ◌∷◌, ◌++◌, length, ltb, ◌==◌, ◌||◌, if◌then◌else◌,
  bit_or, bit_and, shr,
}
use comsrv.Protocol.Error.{Result, argument_error, protocol_error}
use comsrv.Stream.{
  Stream, Outcome, ok, err, hangs, Io, ◌>>=◌, ◌>>◌, and_then, pure, raise, read_u8,
  read_exact as read_bytes, read_all as read_everything, write_all,
}
use comsrv.Stream.Laws.{available}
use comsrv.Cobs.{cobs_encode, cobs_decode}
use comsrv.ModBus.Handle.{ModBusProtocol, ModBusRequest, ModBusResponse, handle as handle_mod_bus}

pub data ByteStreamRequest : Type 0 where
  connect disconnect : ByteStreamRequest
  write : List ℕ → ByteStreamRequest
  read_to_term : (term : ℕ) → ByteStreamRequest
  read_exact : (count : ℕ) → ByteStreamRequest
  read_all : ByteStreamRequest
  cobs_write : List ℕ → ByteStreamRequest
  cobs_read : ByteStreamRequest
  cobs_query : List ℕ → ByteStreamRequest
  write_line : (line : List ℕ) (term : ℕ) → ByteStreamRequest
  read_line : (term : ℕ) → ByteStreamRequest
  query_line : (line : List ℕ) (term : ℕ) → ByteStreamRequest
  mod_bus : (station_address : ℕ) → ModBusProtocol → ModBusRequest → ByteStreamRequest

pub data ByteStreamResponse : Type 0 where
  done : ByteStreamResponse
  bytes : List ℕ → ByteStreamResponse
  string : List ℕ → ByteStreamResponse
  mod_bus : ModBusResponse → ByteStreamResponse

-- `String::push`: the bytes of a character below 256.
unfoldable pub utf8_char : ℕ → List ℕ
utf8_char c =
    if ltb c 128 then c ∷ [] else bit_or 0xC0 (shr c 6) ∷ bit_or 0x80 (bit_and c 0x3F) ∷ []

unfoldable pub check_term : ℕ → Io (Unit {0})
check_term term = if term == 0 || ltb 128 term then raise argument_error else pure tt

-- The loops over `pop` run on fuel, and give `hangs` if it runs out. Each round takes a byte or ends
-- the loop, so they are given one more than there are bytes.
unfoldable pub read_until : ℕ → ℕ → List ℕ → Io (List ℕ)
read_until zero term ret s = (hangs, s)
read_until (suc fuel) term ret s = and_then (read_u8 s) (λ x s'.
    let rest = read_until fuel term (ret ++ x ∷ []) s' in if x == term then (ok ret, s') else rest)

unfoldable pub read_to_term_loop : ℕ → Io (List ℕ)
unfolding read_until
read_to_term_loop term s = read_until (available s + 1) term [] s

-- The first byte that is not zero.
unfoldable pub skip_zeros : ℕ → Io ℕ
skip_zeros zero s = (hangs, s)
skip_zeros (suc fuel) s =
    and_then (read_u8 s)
      (λ x s'. let rest = skip_zeros fuel s' in if x == 0 then rest else (ok x, s'))

-- The frame that `cobs_decode` is given ends with the zero.
unfoldable pub read_frame : Io (List ℕ)
unfolding skip_zeros read_until
read_frame = do
  first ← λ s. skip_zeros (available s + 1) s
  body ← λ s. read_until (available s + 1) 0 (first ∷ []) s
  pure (cobs_decode (body ++ 0 ∷ []))

-- `let _ = …`
unfoldable pub ignore_error : Outcome (List ℕ) × Stream → Outcome (Unit {0}) × Stream
ignore_error (ok a, s) = (ok tt, s)
ignore_error (err e, s) = (ok tt, s)
ignore_error (hangs, s) = (hangs, s)

unfoldable pub query_frame : List ℕ → Io (List ℕ)
unfolding read_frame ignore_error
query_frame request = do
  λ s. ignore_error (read_everything s)
  write_all (cobs_encode request)
  read_frame

module _ (is_utf8 : List ℕ → Bool) (transaction_id : ℕ) where
  unfoldable pub from_utf8 : List ℕ → Io ByteStreamResponse
  from_utf8 text = if is_utf8 text then pure (string text) else raise protocol_error

  unfoldable pub handle : ByteStreamRequest → Io ByteStreamResponse
  unfolding from_utf8 utf8_char check_term read_to_term_loop query_frame read_frame
  handle connect = pure done
  handle disconnect = pure done
  handle (write payload) = do write_all payload; pure done
  handle (read_to_term term) = do line ← read_to_term_loop term; pure (bytes line)
  handle (read_exact count) = do read ← read_bytes count; pure (bytes read)
  handle read_all = do read ← read_everything; pure (bytes read)
  handle (cobs_write payload) = do write_all (cobs_encode payload); pure done
  handle cobs_read = do read ← read_frame; pure (bytes read)
  handle (cobs_query payload) = do read_everything; read ← query_frame payload; pure (bytes read)
  handle (write_line line term) = do check_term term; write_all (line ++ utf8_char term); pure done
  handle (read_line term) = do check_term term; line ← read_to_term_loop term; from_utf8 line
  handle (query_line line term) = do
    read_everything
    check_term term
    write_all (line ++ utf8_char term)
    reply ← read_to_term_loop term
    from_utf8 reply
  handle (mod_bus station_address protocol request) = do
    response ← handle_mod_bus transaction_id station_address protocol request
    pure (mod_bus response)
