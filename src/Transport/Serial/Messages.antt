-- ===== src/Transport/Serial/Messages.antt =====
-- comsrv/src/transport/serial/mod.rs, with protocol/src/lib.rs: the requests and responses of the
-- handler of a serial port, and the equality of port parameters.
use comsrv.Base.{ℕ, Bool, true, false, Option, none, some, ◌&&◌, ◌==◌}
use comsrv.Protocol.CobsStream.{CobsStreamRequest}
use comsrv.Protocol.Scpi.{ScpiRequest, ScpiResponse}
use comsrv.SerialParams.{
  SerialParams, Parity, StopBits, DataBits, eight, seven, odd, even, one, two,
}
use comsrv.ByteStream.{ByteStreamRequest, ByteStreamResponse}

pub data FlowControl : Type 0 where
  no_flow_control hardware software : FlowControl

abbrev pub Params : Type 0
Params = SerialParams FlowControl

pub data SerialRequest : Type 0 where
  write_data_terminal_ready write_request_to_send : Bool → SerialRequest
  read_data_set_ready read_ring_indicator read_carrier_detect read_clear_to_send : SerialRequest

pub data SerialResponse : Type 0 where
  pin_level : Bool → SerialResponse
  done : SerialResponse

-- `prologix gpib_addr req`: the timeout is in the parameter `late`.
pub data Request : Type 0 where
  prologix : (gpib_addr : ℕ) → ScpiRequest → Request
  bytes : Params → ByteStreamRequest → Request
  serial : Params → SerialRequest → Request
  cobs : Params → CobsStreamRequest → Request
  drop_check : Request

pub data Response : Type 0 where
  bytes : ByteStreamResponse → Response
  scpi : ScpiResponse → Response
  serial : SerialResponse → Response
  cobs : Response
  done : Response

abbrev pub prologix_params : Params
prologix_params = record {
  baud = 9600;
  data_bits = eight;
  stop_bits = one;
  parity = Parity.none;
  hardware_flow_control = no_flow_control;
}

unfoldable pub params : Request → Option Params
params (prologix gpib_addr req) = some prologix_params
params (bytes p req) = some p
params (serial p req) = some p
params (cobs p req) = some p
params drop_check = none

-- `==` of parameters.
same_bits : DataBits → DataBits → Bool
same_bits eight eight = true
same_bits seven seven = true
same_bits eight seven = false
same_bits seven eight = false

same_stop : StopBits → StopBits → Bool
same_stop one one = true
same_stop two two = true
same_stop one two = false
same_stop two one = false

parity_index : Parity → ℕ
parity_index Parity.none = 0
parity_index odd = 1
parity_index even = 2

flow_index : FlowControl → ℕ
flow_index no_flow_control = 0
flow_index hardware = 1
flow_index software = 2

unfoldable pub same_params : Params → Params → Bool
unfolding same_bits same_stop parity_index flow_index
same_params a b =
    ((a.baud == b.baud) && same_bits a.data_bits b.data_bits)
    && ((same_stop a.stop_bits b.stop_bits && (parity_index a.parity == parity_index b.parity))
        && (flow_index a.hardware_flow_control == flow_index b.hardware_flow_control))
