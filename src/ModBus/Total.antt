-- ===== src/ModBus/Total.antt =====
-- ModBus transactions return, over RTU and TCP and for every function code.
use comsrv.Base.{ℕ, ◌+◌, ◌-◌, List, ◌++◌, length, get_or, take, drop, bit_or, ltb, ◌==◌, ◌!=◌}
use comsrv.Protocol.Error.{Result, argument_error, protocol_error}
use comsrv.Stream.{raise, lift, read_u8, read_exact, write_all, read_all}
use comsrv.Stream.Total.{
  IsTotal, bind-IsTotal, lift-IsTotal, if-IsTotal, pure-IsTotal, raise-IsTotal, read_u8-IsTotal,
  read_exact-IsTotal, write_all-IsTotal, read_all-IsTotal,
}
use comsrv.ModBus.{FunctionCode, TransactionInfo}
use comsrv.ModBus.Registers.{
  from_be_bytes, new_read_u16, read_u16, new_read_bool, read_bool, new_write_coils,
  write_coils as coils_code, new_write_registers, write_registers as registers_code,
}
use comsrv.ModBus.Ddp
use comsrv.ModBus.Rtu
use comsrv.ModBus.Crc.{crc, with_crc}
use comsrv.ModBus.Rtu.{
  request_body, exception_error, read_exception, check_crc, read_reply, check_header,
}
use comsrv.ModBus.Tcp
use comsrv.ModBus.Tcp.{
  request_length, sized_request, check_tcp_header, read_tcp_frame, parse_data, parse_reply,
}
use comsrv.ModBus.Handle.{
  ModBusProtocol, tcp, rtu, ModBusRequest, ddp, read_coil, read_discrete, read_input, read_holding,
  write_coils, write_registers, ModBusResponse, done, number, bool, payload, handler_handle, run,
  dispatch, handle,
}

read_exception-IsTotal : (A : Type 0) → IsTotal (read_exception {A = A})
unfolding read_exception
read_exception-IsTotal A =
    bind-IsTotal read_u8 _ read_u8-IsTotal (λ code. raise-IsTotal (exception_error code))

check_tcp_header-IsTotal :
    (t : TransactionInfo) (code : ℕ) (header : List ℕ) → IsTotal (check_tcp_header t code header)
unfolding check_tcp_header
check_tcp_header-IsTotal t code header =
    let len = from_be_bytes (get_or header 4 0) (get_or header 5 0) in
    let refused : IsTotal (raise {A = List ℕ} protocol_error) = raise-IsTotal protocol_error in
    if-IsTotal (get_or header 6 0 != t.station_address) refused (
      if-IsTotal (from_be_bytes (get_or header 0 0) (get_or header 1 0) != t.transaction_id) refused
        (if-IsTotal (from_be_bytes (get_or header 2 0) (get_or header 3 0) != 0) refused (
          if-IsTotal (ltb len 2) refused (
            if-IsTotal (get_or header 7 0 == bit_or 0x80 code) (read_exception-IsTotal (List ℕ))
              (if-IsTotal (get_or header 7 0 != code) refused (read_exact-IsTotal (len - 2)))))))

module _ {A : Type 0} (f : FunctionCode A) (t : TransactionInfo) where
  check_crc-IsTotal :
      (before : List ℕ) (n : ℕ) (rest : List ℕ) → IsTotal (check_crc f t before n rest)
  unfolding check_crc
  check_crc-IsTotal before n rest =
      if-IsTotal (crc (before ++ rest) != 0) (raise-IsTotal protocol_error)
        (lift-IsTotal (f.parse_frame (take n rest)))

  read_reply-IsTotal : (header : List ℕ) → IsTotal (read_reply f t header)
  unfolding read_reply
  read_reply-IsTotal header =
      bind-IsTotal (read_exact f.get_header_length) _ (read_exact-IsTotal f.get_header_length)
        (λ fun_header.
          bind-IsTotal (lift (f.get_data_length_from_header fun_header)) _
            (lift-IsTotal (f.get_data_length_from_header fun_header))
            (λ n.
              bind-IsTotal (read_exact (n + 2)) _ (read_exact-IsTotal (n + 2))
                (λ rest. check_crc-IsTotal (header ++ fun_header) n rest)))

  check_header-IsTotal : (header : List ℕ) → IsTotal (check_header f t header)
  unfolding check_header
  check_header-IsTotal header =
      if-IsTotal (get_or header 0 0 != t.station_address) (raise-IsTotal protocol_error) (
        if-IsTotal (get_or header 1 0 == bit_or 0x80 f.function_code) (read_exception-IsTotal A) (
          if-IsTotal (get_or header 1 0 != f.function_code) (raise-IsTotal protocol_error)
            (read_reply-IsTotal header)))

  rtu-IsTotal : IsTotal (Rtu.handle f t)
  unfolding Rtu.handle Rtu.exchange
  rtu-IsTotal = if-IsTotal (ltb 255 (length (request_body f t))) (raise-IsTotal argument_error) (
      bind-IsTotal (write_all (with_crc (request_body f t))) _
        (write_all-IsTotal (with_crc (request_body f t)))
        (λ u.
          bind-IsTotal (read_exact 2) _ (read_exact-IsTotal 2)
            (λ header. check_header-IsTotal header)))

  parse_reply-IsTotal : (reply : List ℕ) → IsTotal (parse_reply f t reply)
  unfolding parse_reply parse_data
  parse_reply-IsTotal reply =
      let made = f.get_data_length_from_header (take f.get_header_length reply) in
      if-IsTotal (ltb (length reply) f.get_header_length) (raise-IsTotal argument_error) (
        bind-IsTotal (lift made) _ (lift-IsTotal made) (λ n.
          if-IsTotal (ltb (length reply) (n + f.get_header_length)) (raise-IsTotal argument_error)
            (lift-IsTotal (f.parse_frame (drop f.get_header_length reply)))))

  tcp-IsTotal : IsTotal (Tcp.handle f t)
  unfolding Tcp.handle Tcp.exchange read_tcp_frame
  tcp-IsTotal = if-IsTotal (ltb 65535 (request_length f t)) (raise-IsTotal argument_error) (
      bind-IsTotal (write_all (sized_request f t)) _ (write_all-IsTotal (sized_request f t)) (λ u.
        bind-IsTotal (read_tcp_frame t f.function_code) _
          (bind-IsTotal (read_exact 8) _ (read_exact-IsTotal 8)
            (λ header. check_tcp_header-IsTotal t f.function_code header))
          (λ reply. parse_reply-IsTotal reply)))

  handler_handle-IsTotal : (protocol : ModBusProtocol) → IsTotal (handler_handle protocol t f)
  unfolding handler_handle
  handler_handle-IsTotal tcp = tcp-IsTotal
  handler_handle-IsTotal rtu = rtu-IsTotal

module _ (protocol : ModBusProtocol) (t : TransactionInfo) where
  run-IsTotal :
      {F A : Type 0} (made : Result F) (code : F → FunctionCode A) (response : A → ModBusResponse)
      → IsTotal (run protocol t made code response)
  unfolding run
  run-IsTotal made code response = bind-IsTotal (lift made) _ (lift-IsTotal made) (λ f.
      bind-IsTotal (handler_handle protocol t (code f)) _
        (handler_handle-IsTotal (code f) t protocol) (λ ret. pure-IsTotal (response ret)))

  dispatch-IsTotal : (req : ModBusRequest) → IsTotal (dispatch protocol t req)
  unfolding dispatch
  dispatch-IsTotal (ddp sub_cmd ddp_cmd response request) =
      run-IsTotal (Ddp.new ddp_cmd sub_cmd request response) Ddp.ddp payload
  dispatch-IsTotal (read_coil addr cnt) = run-IsTotal (new_read_bool 1 addr cnt) read_bool bool
  dispatch-IsTotal (read_discrete addr cnt) = run-IsTotal (new_read_bool 2 addr cnt) read_bool bool
  dispatch-IsTotal (read_input addr cnt) = run-IsTotal (new_read_u16 4 addr cnt) read_u16 number
  dispatch-IsTotal (read_holding addr cnt) = run-IsTotal (new_read_u16 3 addr cnt) read_u16 number
  dispatch-IsTotal (write_coils addr values) =
      run-IsTotal (new_write_coils addr values) coils_code (λ _. done)
  dispatch-IsTotal (write_registers addr values) =
      run-IsTotal (new_write_registers addr values) registers_code (λ _. done)

pub handle-IsTotal :
    (transaction_id station_address : ℕ) (protocol : ModBusProtocol) (req : ModBusRequest)
    → IsTotal (handle transaction_id station_address protocol req)
unfolding handle
handle-IsTotal transaction_id station_address protocol req =
    bind-IsTotal read_all _ read_all-IsTotal (λ read.
      dispatch-IsTotal protocol
        (record { transaction_id = transaction_id; station_address = station_address }) req)
