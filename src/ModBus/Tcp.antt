-- ===== src/ModBus/Tcp.antt =====
-- comsrv/src/protocol/modbus/tcp.rs: `TcpHandler::handle`.
pub mod Exchange
use comsrv.Base.{
  ℕ, ◌+◌, ◌-◌, ◌||◌, List, [], ◌∷◌, ◌++◌, length, get_or, set, take, drop, bit_or, ltb, ◌==◌, ◌!=◌,
  if◌then◌else◌, as_u8, as_u16, shr,
}
use comsrv.Protocol.Error.{argument_error, protocol_error}
use comsrv.Stream.{Io, ◌>>=◌, ◌>>◌, pure, raise, lift, read_exact, write_all}
use comsrv.ModBus.{FunctionCode, TransactionInfo}
use comsrv.ModBus.Registers.{to_be_bytes, from_be_bytes}
use comsrv.ModBus.Rtu.{read_exception}

-- `read_tcp_frame` behind the header of 8 bytes.
unfoldable pub check_tcp_header : TransactionInfo → ℕ → List ℕ → Io (List ℕ)
unfolding read_exception
check_tcp_header t function_code header =
    let transaction_id = from_be_bytes (get_or header 0 0) (get_or header 1 0) in
    let proto = from_be_bytes (get_or header 2 0) (get_or header 3 0) in
    let len = from_be_bytes (get_or header 4 0) (get_or header 5 0) in
    if get_or header 6 0 != t.station_address
    then raise protocol_error
    else if transaction_id != t.transaction_id
    then raise protocol_error
    else if proto != 0
    then raise protocol_error
    else if ltb len 2
    then raise protocol_error
    else if get_or header 7 0 == bit_or 0x80 function_code
    then read_exception
    else if get_or header 7 0 != function_code
    then raise protocol_error
    else read_exact (len - 2)

unfoldable pub read_tcp_frame : TransactionInfo → ℕ → Io (List ℕ)
unfolding check_tcp_header
read_tcp_frame t function_code = do header ← read_exact 8; check_tcp_header t function_code header

module _ {A : Type 0} (f : FunctionCode A) (t : TransactionInfo) where
  -- With zeros for the length.
  abbrev pub unsized_request : List ℕ
  unsized_request =
      f.format_request
        (to_be_bytes t.transaction_id ++ 0 ∷ 0 ∷ 0 ∷ 0 ∷ t.station_address ∷ f.function_code ∷ [])

  abbrev pub request_length : ℕ
  request_length = length unsized_request - 6

  -- `request[4] = len_buf[0]; request[5] = len_buf[1];`
  abbrev pub sized_request : List ℕ
  sized_request =
      set (set unsized_request 4 (as_u8 (shr (as_u16 request_length) 8))) 5
        (as_u8 (as_u16 request_length))

  unfoldable pub parse_data : List ℕ → ℕ → Io A
  parse_data reply data_len =
      if ltb (length reply) (data_len + f.get_header_length)
      then raise argument_error
      else lift (f.parse_frame (drop f.get_header_length reply))

  unfoldable pub parse_reply : List ℕ → Io A
  unfolding parse_data
  parse_reply reply =
      if ltb (length reply) f.get_header_length
      then raise argument_error
      else (lift (f.get_data_length_from_header (take f.get_header_length reply)) >>= λ data_len.
          parse_data reply data_len)

  unfoldable pub exchange : Io A
  unfolding parse_reply read_tcp_frame
  exchange = do write_all sized_request; reply ← read_tcp_frame t f.function_code; parse_reply reply

  unfoldable pub handle : Io A
  unfolding exchange
  handle = if ltb 65535 request_length then raise argument_error else exchange
