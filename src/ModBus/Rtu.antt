-- ===== src/ModBus/Rtu.antt =====
-- comsrv/src/protocol/modbus/rtu.rs: `RtuHandler::handle`.
pub mod Exchange
use comsrv.Base.{
  ℕ, ◌+◌, List, [], ◌∷◌, ◌++◌, length, get_or, take, bit_or, ltb, ◌==◌, ◌!=◌, if◌then◌else◌,
}
use comsrv.Protocol.Error.{Error, exception, argument_error, protocol_error, ProtocolError, Anyhow}
use comsrv.Stream.{Io, ◌>>=◌, ◌>>◌, pure, raise, lift, read_u8, read_exact, write_all}
use comsrv.ModBus.{FunctionCode, TransactionInfo, from_code}
use comsrv.ModBus.Crc.{crc, with_crc}

abbrev pub exception_error : ℕ → Error
exception_error code = Error.protocol (ProtocolError.other (exception (from_code code)))

unfoldable pub read_exception : {A : Type 0} → Io A
read_exception = do code ← read_u8; raise (exception_error code)

module _ {A : Type 0} (f : FunctionCode A) (t : TransactionInfo) where
  -- Before the checksum.
  abbrev pub request_body : List ℕ
  request_body = f.format_request (t.station_address ∷ f.function_code ∷ [])

  -- The last test, on all bytes of the reply.
  unfoldable pub check_crc : List ℕ → ℕ → List ℕ → Io A
  check_crc before data_len rest =
      if crc (before ++ rest) != 0
      then raise protocol_error
      else lift (f.parse_frame (take data_len rest))

  -- The rest of the reply once the two header bytes are known to be right.
  unfoldable pub read_reply : List ℕ → Io A
  unfolding check_crc
  read_reply header = do
    fun_header ← read_exact f.get_header_length
    data_len ← lift (f.get_data_length_from_header fun_header)
    rest ← read_exact (data_len + 2)
    check_crc (header ++ fun_header) data_len rest

  unfoldable pub check_header : List ℕ → Io A
  unfolding read_reply read_exception
  check_header header =
      if get_or header 0 0 != t.station_address
      then raise protocol_error
      else if get_or header 1 0 == bit_or 0x80 f.function_code
      then read_exception
      else if get_or header 1 0 != f.function_code
      then raise protocol_error
      else read_reply header

  unfoldable pub exchange : Io A
  unfolding check_header
  exchange = do write_all (with_crc request_body); header ← read_exact 2; check_header header

  unfoldable pub handle : Io A
  unfolding exchange
  handle = if ltb 255 (length request_body) then raise argument_error else exchange
