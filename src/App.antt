-- ===== src/App.antt =====
-- comsrv/src/app.rs: the server's inventories and the dispatch of a request to its instrument. The
-- transports are parameters: their addresses and instruments, how an instrument is opened, and what
-- its task answers. The requests that only ask a driver for a list are left out.
pub mod Dispatch
pub mod Laws
pub mod Drop
use comsrv.Base.{ℕ, Bool, if◌then◌else◌, List, Option, none, some}
use comsrv.Protocol.Error.{Result, ok, err, internal_error, ◌>>=◌}
use comsrv.Protocol.CobsStream.{CobsStreamRequest}
use comsrv.Protocol.Scpi.{ScpiRequest, ScpiResponse}
use comsrv.Protocol.Can.{CanInstrument, CanRequest, CanResponse}
use comsrv.ByteStream.{ByteStreamRequest, ByteStreamResponse}
use comsrv.SerialParams.{SerialPortConfig, try_into}
use comsrv.Inventory.{
  Inventory, LockableInstrument, new, list, wait_for_lock, connect, disconnect, disconnect_all,
  lock, unlock,
}
use comsrv.Transport.Serial.{FlowControl}
use comsrv.Transport.Serial
use comsrv.Transport.Tcp.{TcpOptions, TcpRequest, TcpResponse}
use comsrv.Transport.Can

-- `task_of` is the number of the task whose channel `wait_for_closed` of an instrument awaits, and
-- `none` where that returns at once, as for VISA.
pub record Transport : Type 1 where
  pub Addr : Type 0
  pub Instr : Type 0
  pub same : Discrete Addr
  pub open_instrument : Addr → Result Instr
  pub task_of : Instr → Option ℕ

-- `can_source` is the address of a CAN instrument.
pub record Environment : Type 1 where
  pub serial : Transport
  pub can : Transport
  pub ftdi : Transport
  pub tcp : Transport
  pub visa : Transport
  pub vxi : Transport
  pub hid : Transport
  pub HidRequest : Type 0
  pub HidResponse : Type 0
  pub can_source : CanInstrument → can.Addr
  pub call_serial : serial.Instr → Serial.Request → Result Serial.Response
  pub call_can : can.Instr → Can.Request → Result CanResponse
  pub call_ftdi : ftdi.Instr → ByteStreamRequest → Result ByteStreamResponse
  pub call_tcp : tcp.Instr → TcpRequest → Result TcpResponse
  pub call_visa : visa.Instr → ScpiRequest → Result ScpiResponse
  pub call_vxi : vxi.Instr → ScpiRequest → Result ScpiResponse
  pub call_hid : hid.Instr → HidRequest → Result HidResponse

abbrev pub InventoryOf : Transport → Type 0
InventoryOf t = Inventory t.Addr t.Instr

-- A request is answered, waits for the mutex of a lock, or waits until the task of an
-- instrument is closed.
pub data Answer (A : Type 0) : Type 0 where
  answered : Result A → Answer A
  waits_for : (lock_id : ℕ) → Answer A
  waits_for_closed : (task : ℕ) → Answer A

module _ (t : Transport) where
  unfoldable pub used :
      {A : Type 0}
      → (t.Instr → Result A)
      → Result t.Instr × InventoryOf t
      → Answer A × InventoryOf t
  used use_instr (ok instr, s) = (answered (use_instr instr), s)
  used use_instr (err e, s) = (answered (err e), s)

  -- `wait_connect`, and what is done with the instrument.
  unfoldable pub connect_free :
      {A : Type 0}
      → t.Addr
      → (t.Instr → Result A)
      → Option ℕ
      → InventoryOf t
      → Answer A × InventoryOf t
  unfolding used connect
  connect_free addr use_instr (some id) s = (waits_for id, s)
  connect_free addr use_instr none s = used use_instr (connect t.same t.open_instrument addr s)

  unfoldable pub wait_connect :
      {A : Type 0}
      → t.Addr
      → (lock_id : Option ℕ) → (t.Instr → Result A)
      → InventoryOf t
      → Answer A × InventoryOf t
  unfolding connect_free wait_for_lock
  wait_connect addr lock_id use_instr s =
      connect_free addr use_instr (wait_for_lock t.same addr lock_id s) s

  unfoldable pub as_answer : Result ℕ × InventoryOf t → Answer ℕ × InventoryOf t
  as_answer (ret, s) = (answered ret, s)

  -- `wait_and_lock`, for the new id.
  unfoldable pub lock_free : ℕ → t.Addr → Option ℕ → InventoryOf t → Answer ℕ × InventoryOf t
  unfolding lock as_answer
  lock_free id addr (some held) s = (waits_for held, s)
  lock_free id addr none s = as_answer (lock t.same t.open_instrument id addr s)

  unfoldable pub wait_and_lock : ℕ → t.Addr → InventoryOf t → Answer ℕ × InventoryOf t
  unfolding lock_free wait_for_lock
  wait_and_lock id addr s = lock_free id addr (wait_for_lock t.same addr none s) s

  -- `wait_for_closed` of an instrument
  unfoldable pub wait_for_closed : Option ℕ → Answer (Unit {0})
  wait_for_closed none = answered (ok tt)
  wait_for_closed (some task) = waits_for_closed task

  unfoldable pub closing :
      Option (LockableInstrument t.Instr) × InventoryOf t → Answer (Unit {0}) × InventoryOf t
  unfolding wait_for_closed
  closing (none, s) = (answered (ok tt), s)
  closing (some li, s) = (wait_for_closed (t.task_of li.instr), s)

  unfoldable pub disconnect_free :
      t.Addr → Option ℕ → InventoryOf t → Answer (Unit {0}) × InventoryOf t
  unfolding disconnect closing
  disconnect_free addr (some held) s = (waits_for held, s)
  disconnect_free addr none s = closing (disconnect t.same addr s)

  unfoldable pub wait_disconnect :
      t.Addr → (lock_id : Option ℕ) → InventoryOf t → Answer (Unit {0}) × InventoryOf t
  unfolding disconnect_free wait_for_lock
  wait_disconnect addr lock_id s = disconnect_free addr (wait_for_lock t.same addr lock_id s) s

module _ (env : Environment) where
  pub record Inventories : Type 0 where
    pub serial : InventoryOf env.serial
    pub can : InventoryOf env.can
    pub ftdi : InventoryOf env.ftdi
    pub tcp : InventoryOf env.tcp
    pub visa : InventoryOf env.visa
    pub vxi : InventoryOf env.vxi
    pub hid : InventoryOf env.hid

  pub data Address : Type 0 where
    tcp : env.tcp.Addr → Address
    ftdi : env.ftdi.Addr → Address
    hid : env.hid.Addr → Address
    serial : env.serial.Addr → Address
    vxi : env.vxi.Addr → Address
    visa : env.visa.Addr → Address
    can : env.can.Addr → Address

  pub data Request : Type 0 where
    bytes_ftdi : env.ftdi.Addr → ByteStreamRequest → Option ℕ → Request
    bytes_serial :
        env.serial.Addr → SerialPortConfig FlowControl → ByteStreamRequest → Option ℕ → Request
    bytes_tcp : env.tcp.Addr → Option TcpOptions → ByteStreamRequest → Option ℕ → Request
    cobs_ftdi : env.ftdi.Addr → CobsStreamRequest → Option ℕ → Request
    cobs_serial :
        env.serial.Addr → SerialPortConfig FlowControl → CobsStreamRequest → Option ℕ → Request
    cobs_tcp : env.tcp.Addr → Option TcpOptions → CobsStreamRequest → Option ℕ → Request
    can_request : CanInstrument → CanRequest → Option ℕ → Request
    scpi_visa : env.visa.Addr → ScpiRequest → Option ℕ → Request
    scpi_vxi : env.vxi.Addr → ScpiRequest → Option ℕ → Request
    prologix : env.serial.Addr → (gpib_addr : ℕ) → ScpiRequest → Option ℕ → Request
    hid_request : env.hid.Addr → env.HidRequest → Option ℕ → Request
    serial_request :
        env.serial.Addr → SerialPortConfig FlowControl → Serial.SerialRequest → Option ℕ → Request
    list_connected_instruments : Request
    lock_request : Address → Request
    unlock_request : Address → (id : ℕ) → Request
    drop_request : Address → Option ℕ → Request
    drop_all_request : Request
    shutdown : Request

  pub data Response : Type 0 where
    instruments : List Address → Response
    scpi : ScpiResponse → Response
    bytes : ByteStreamResponse → Response
    cobs_stream : Response
    can_response : env.can.Addr → CanResponse → Response
    locked : (lock_id : ℕ) → Response
    hid_response : env.HidResponse → Response
    serial_response : Serial.SerialResponse → Response
    done : Response
