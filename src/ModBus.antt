-- ===== src/ModBus.antt =====
-- comsrv/src/protocol/modbus: ModBus over TCP and RTU framing. The trait `FunctionCode`, the
-- exceptions and the transaction are here.
pub mod Crc
pub mod Registers
pub mod Ddp
pub mod Rtu
pub mod Tcp
pub mod Handle
pub mod Total
use comsrv.Base.{ℕ, List, ◌==◌, if◌then◌else◌}
use comsrv.Protocol.Error.{
  Result, ModBusException, invalid_function, invalid_data_address, invalid_data_value,
  server_device_failure, acknowledge, server_device_busy, negative_acknowledgement,
  memory_parity_error, gateway_path_unavailable, gateway_target_failed_to_respond, unknown,
}

unfoldable pub from_code : ℕ → ModBusException
from_code code =
    if code == 1
    then invalid_function
    else if code == 2
    then invalid_data_address
    else if code == 3
    then invalid_data_value
    else if code == 4
    then server_device_failure
    else if code == 5
    then acknowledge
    else if code == 6
    then server_device_busy
    else if code == 7
    then negative_acknowledgement
    else if code == 8
    then memory_parity_error
    else if code == 10
    then gateway_path_unavailable
    else if code == 11
    then gateway_target_failed_to_respond
    else unknown code

-- The trait with its associated type as a parameter. `format_request` is given the request so far
-- and returns it with what it pushed.
pub record FunctionCode (Output : Type 0) : Type 0 where
  pub format_request : List ℕ → List ℕ
  pub get_header_length : ℕ
  pub get_data_length_from_header : List ℕ → Result ℕ
  pub parse_frame : List ℕ → Result Output
  pub function_code : ℕ

pub record TransactionInfo : Type 0 where
  pub transaction_id : ℕ
  pub station_address : ℕ
