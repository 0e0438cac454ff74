-- ===== src/ModBus/Ddp.antt =====
-- comsrv/src/protocol/modbus/ddp.rs: a custom function code.
use comsrv.Base.{
  ℕ, ◌+◌, Bool, List, ◌∷◌, ◌++◌, length, get_or, bit_or, ltb, ◌!=◌, if◌then◌else◌, as_u8,
}
use comsrv.Protocol.Error.{Result, ok, err, argument_error, protocol_error}
use comsrv.ModBus.{FunctionCode}

pub record Ddp : Type 0 where
  pub ddp_cmd : ℕ
  pub sub_cmd : ℕ
  pub request : List ℕ
  pub response : Bool

unfoldable pub new : ℕ → ℕ → List ℕ → Bool → Result Ddp
new ddp_cmd sub_cmd request response =
    if ltb 255 (length request)
    then err argument_error
    else ok
        (record { ddp_cmd = ddp_cmd; sub_cmd = sub_cmd; request = request; response = response })

unfoldable pub ddp : Ddp → FunctionCode (List ℕ)
ddp d = record {
  format_request = λ req.
      req
      ++ d.sub_cmd
        ∷ as_u8 (length d.request + 1)
        ∷ (if d.response then bit_or d.ddp_cmd 0x80 else d.ddp_cmd)
        ∷ d.request;
  get_header_length = 2;
  get_data_length_from_header = λ header.
      if get_or header 0 0 != d.sub_cmd then err protocol_error else ok (get_or header 1 0);
  parse_frame = λ frame. ok frame;
  function_code = 0x44;
}
