-- ===== src/ModBus/Handle.antt =====
-- `handle` of comsrv/src/protocol/modbus/mod.rs: one request of a client over an open connection.
-- The transaction's id is random in the code and an argument here.
pub mod Laws
use comsrv.Base.{ℕ, Bool, List}
use comsrv.Protocol.Error.{Result}
use comsrv.Stream.{Io, ◌>>=◌, ◌>>◌, pure, lift, read_all}
use comsrv.ModBus.{FunctionCode, TransactionInfo}
use comsrv.ModBus.Registers.{
  new_read_u16, read_u16, new_read_bool, read_bool, new_write_coils, write_coils as coils_code,
  new_write_registers, write_registers as registers_code,
}
use comsrv.ModBus.Ddp
use comsrv.ModBus.Rtu
use comsrv.ModBus.Tcp

pub data ModBusProtocol : Type 0 where
  tcp rtu : ModBusProtocol

pub data ModBusRequest : Type 0 where
  ddp : (sub_cmd ddp_cmd : ℕ) (response : Bool) (payload : List ℕ) → ModBusRequest
  read_coil read_discrete read_input read_holding : (addr cnt : ℕ) → ModBusRequest
  write_coils : (addr : ℕ) (values : List Bool) → ModBusRequest
  write_registers : (addr : ℕ) (values : List ℕ) → ModBusRequest

pub data ModBusResponse : Type 0 where
  done : ModBusResponse
  number : List ℕ → ModBusResponse
  bool : List Bool → ModBusResponse
  payload : List ℕ → ModBusResponse

unfoldable pub handler_handle :
    {A : Type 0} → ModBusProtocol → TransactionInfo → FunctionCode A → Io A
handler_handle tcp t f = Tcp.handle f t
handler_handle rtu t f = Rtu.handle f t

module _ (protocol : ModBusProtocol) (t : TransactionInfo) where
  -- A function code that could be made is run, and its output put into a response.
  unfoldable pub run :
      {F A : Type 0} → Result F → (F → FunctionCode A) → (A → ModBusResponse) → Io ModBusResponse
  unfolding handler_handle
  run made code response = do
    fun_code ← lift made
    ret ← handler_handle protocol t (code fun_code)
    pure (response ret)

  unfoldable pub dispatch : ModBusRequest → Io ModBusResponse
  unfolding run
  dispatch (ddp sub_cmd ddp_cmd response request) =
      run (Ddp.new ddp_cmd sub_cmd request response) Ddp.ddp payload
  dispatch (read_coil addr cnt) = run (new_read_bool 1 addr cnt) read_bool bool
  dispatch (read_discrete addr cnt) = run (new_read_bool 2 addr cnt) read_bool bool
  dispatch (read_input addr cnt) = run (new_read_u16 4 addr cnt) read_u16 number
  dispatch (read_holding addr cnt) = run (new_read_u16 3 addr cnt) read_u16 number
  dispatch (write_coils addr values) = run (new_write_coils addr values) coils_code (λ _. done)
  dispatch (write_registers addr values) =
      run (new_write_registers addr values) registers_code (λ _. done)

unfoldable pub handle :
    (transaction_id station_address : ℕ) → ModBusProtocol → ModBusRequest → Io ModBusResponse
unfolding dispatch
handle transaction_id station_address protocol request = do
  read_all
  dispatch protocol (record { transaction_id = transaction_id; station_address = station_address })
      request
