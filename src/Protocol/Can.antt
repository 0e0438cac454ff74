-- ===== src/Protocol/Can.antt =====
-- The CAN messages of protocol/src/can.rs: frames, requests, and the GCT messages with the checks
-- that they pass before they are sent and the decoders of those that fit one frame.
use comsrv.Base.{
  ℕ, ◌-◌, Bool, false, ◌&&◌, ◌||◌, List, ◌++◌, Option, none, some, length, take, replicate, bit_and,
  ltb, leb, ◌==◌, ◌!=◌, if◌then◌else◌, as_u8, shr, from_le_bytes,
}
use comsrv.Protocol.MessageId
use Prim.Native.String.{String}

pub data CanAddress : Type 0 where
  pcan : String → CanAddress
  socket_can : String → CanAddress
  usr_canet : String → ℕ → CanAddress
  loopback : CanAddress

-- `pcan address bitrate`, `usr_canet host port`.
pub data CanInstrument : Type 0 where
  pcan : String → ℕ → CanInstrument
  socket_can : String → CanInstrument
  usr_canet : String → ℕ → CanInstrument
  loopback : CanInstrument

unfoldable pub bitrate : CanInstrument → Option ℕ
bitrate (CanInstrument.pcan address rate) = some rate
bitrate (CanInstrument.socket_can interface) = none
bitrate (CanInstrument.usr_canet host port) = none
bitrate CanInstrument.loopback = none

-- `impl From<CanInstrument> for CanAddress`
unfoldable pub can_address : CanInstrument → CanAddress
can_address (CanInstrument.pcan address rate) = CanAddress.pcan address
can_address (CanInstrument.socket_can interface) = CanAddress.socket_can interface
can_address CanInstrument.loopback = CanAddress.loopback
can_address (CanInstrument.usr_canet host port) = CanAddress.usr_canet host port

-- `bytes` is the field `data`.
pub record DataFrame : Type 0 where
  pub id : ℕ
  pub ext_id : Bool
  pub bytes : List ℕ

pub record RemoteFrame : Type 0 where
  pub id : ℕ
  pub ext_id : Bool
  pub dlc : ℕ

pub data CanMessage : Type 0 where
  data_frame : DataFrame → CanMessage
  remote_frame : RemoteFrame → CanMessage

pub data SysCtrlType : Type 0 where
  value query neither : SysCtrlType

-- `sys_ctrl src dst cmd tp data`, `monitoring_data src group_idx reading_idx data`,
-- `monitoring_request src dst group_idx readings`, `ddp src dst data version`,
-- `heartbeat src product_id`.
pub data GctMessage : Type 0 where
  sys_ctrl : ℕ → ℕ → ℕ → SysCtrlType → List ℕ → GctMessage
  monitoring_data : ℕ → ℕ → ℕ → List ℕ → GctMessage
  monitoring_request : ℕ → ℕ → ℕ → ℕ → GctMessage
  ddp : ℕ → ℕ → List ℕ → ℕ → GctMessage
  heartbeat : ℕ → ℕ → GctMessage

pub data CanRequest : Type 0 where
  listen_raw : Bool → CanRequest
  listen_gct : Bool → CanRequest
  stop_all : CanRequest
  enable_loopback : Bool → CanRequest
  tx_raw : CanMessage → CanRequest
  tx_gct : GctMessage → CanRequest

pub data CanResponse : Type 0 where
  started stopped done : CanResponse
  raw : CanMessage → CanResponse
  gct : GctMessage → CanResponse

abbrev pub broadcast_addr : ℕ
broadcast_addr = 0x7F

abbrev pub msgtype_sysctrl : ℕ
msgtype_sysctrl = 1

abbrev pub msgtype_monitoring_data : ℕ
msgtype_monitoring_data = 7

abbrev pub msgtype_monitoring_request : ℕ
msgtype_monitoring_request = 8

abbrev pub msgtype_ddp : ℕ
msgtype_ddp = 12

abbrev pub msgtype_heartbeat : ℕ
msgtype_heartbeat = 14

abbrev pub max_ddp_data_len_v1 : ℕ
max_ddp_data_len_v1 = 61

abbrev pub max_ddp_data_len_v2 : ℕ
max_ddp_data_len_v2 = 2045

-- `validate().is_ok()`: the error has one value.
unfoldable pub validate : GctMessage → Bool
validate (sys_ctrl src dst cmd tp bytes) =
    (ltb src broadcast_addr && leb dst broadcast_addr) && (leb (length bytes) 8 && ltb cmd 1024)
validate (monitoring_data src group_idx reading_idx bytes) =
    ltb src broadcast_addr && (leb (length bytes) 8 && (ltb group_idx 32 && ltb reading_idx 64))
validate (monitoring_request src dst group_idx readings) =
    ltb src broadcast_addr && (leb dst broadcast_addr && ltb group_idx 32)
validate (ddp src dst bytes version) =
    let addr_ok = ltb src broadcast_addr && leb dst broadcast_addr in
    if version == 0 || version == 1
    then addr_ok && leb (length bytes) max_ddp_data_len_v1
    else if version == 2
    then addr_ok && leb (length bytes) max_ddp_data_len_v2
    else false
validate (heartbeat src product_id) =
    ltb src broadcast_addr && (product_id != 0 && product_id != 0xFFFF)

-- A panic, here by a subtraction below 0, is a value of its own.
pub data Run {ℓ} (A : Type ℓ) : Type ℓ where
  returns : A → Run A
  panics : Run A

unfoldable pub try_decode_sysctrl : DataFrame → Option GctMessage
try_decode_sysctrl msg =
    let is_value = ltb 0 (bit_and (MessageId.type_data msg.id) 2) in
    let is_query = ltb 0 (bit_and (MessageId.type_data msg.id) 1) in
    let tp = if is_value then value else if is_query then query else neither in
    if MessageId.src msg.id == broadcast_addr
    then none
    else if is_value && is_query
    then none
    else some (
        sys_ctrl (MessageId.src msg.id) (MessageId.dst msg.id) (shr (MessageId.type_data msg.id) 2)
          tp msg.bytes)

unfoldable pub try_decode_monitoring_data : DataFrame → Option GctMessage
try_decode_monitoring_data msg =
    let group_idx = as_u8 (shr (MessageId.type_data msg.id) 6) in
    let reading_idx = as_u8 (bit_and (MessageId.type_data msg.id) 0x3F) in
    if MessageId.src msg.id == broadcast_addr
    then none
    else some (monitoring_data (MessageId.src msg.id) group_idx reading_idx msg.bytes)

-- `8 - data.len()` panics on a frame of more than 8 bytes.
unfoldable pub try_decode_monitoring_request : DataFrame → Run (Option GctMessage)
try_decode_monitoring_request msg =
    let group_idx = as_u8 (shr (MessageId.type_data msg.id) 6) in
    let filled = msg.bytes ++ replicate (8 - length msg.bytes) 0 in
    if MessageId.src msg.id == broadcast_addr
    then returns none
    else if ltb 8 (length msg.bytes)
    then panics
    else returns (
        some (
          monitoring_request (MessageId.src msg.id) (MessageId.dst msg.id) group_idx
            (from_le_bytes (take 8 filled))))

unfoldable pub try_decode_heartbeat : DataFrame → Option GctMessage
try_decode_heartbeat msg =
    if MessageId.src msg.id == broadcast_addr
    then none
    else if ltb (length msg.bytes) 2
    then none
    else some (heartbeat (MessageId.src msg.id) (from_le_bytes (take 2 msg.bytes)))
