-- ===== src/SerialParams.antt =====
-- comsrv/src/transport/serial/params.rs: the settings of a serial port and the text of three
-- characters for them. A text is the list of its ASCII bytes.
use comsrv.Base.{ℕ, arith, ◌≡◌, ◌+◌, List, [], ◌∷◌, map, ◌==◌, ◌&&◌, leb, if◌then◌else◌}
use comsrv.Protocol.Error.{Result, ok, err, argument_error, ◌>>=◌}

pub data StopBits : Type 0 where
  one two : StopBits

pub data Parity : Type 0 where
  none odd even : Parity

pub data DataBits : Type 0 where
  seven eight : DataBits

unfoldable pub to_lowercase : ℕ → ℕ
to_lowercase c = if leb 65 c && leb c 90 then c + 32 else c

unfoldable pub parse_data_bits : ℕ → Result DataBits
parse_data_bits c =
    if c == b'8' then ok eight else if c == b'7' then ok seven else err argument_error

unfoldable pub parse_parity : ℕ → Result Parity
parse_parity c =
    if c == b'n'
    then ok none
    else if c == b'o'
    then ok odd
    else if c == b'e'
    then ok even
    else err argument_error

unfoldable pub parse_stop_bits : ℕ → Result StopBits
parse_stop_bits c = if c == b'1' then ok one else if c == b'2' then ok two else err argument_error

unfoldable pub parse_chars : List ℕ → Result (DataBits × Parity × StopBits)
unfolding parse_data_bits parse_parity parse_stop_bits
parse_chars (a ∷ b ∷ c ∷ []) = do
  data_bits ← parse_data_bits a
  parity ← parse_parity b
  stop_bits ← parse_stop_bits c
  ok (data_bits, parity, stop_bits)
parse_chars _ = err argument_error

unfoldable pub parse_serial_settings : List ℕ → Result (DataBits × Parity × StopBits)
unfolding parse_chars to_lowercase
parse_serial_settings settings = parse_chars (map to_lowercase settings)

pub record SerialParams (Flow : Type 0) : Type 0 where
  pub baud : ℕ
  pub data_bits : DataBits
  pub stop_bits : StopBits
  pub parity : Parity
  pub hardware_flow_control : Flow

pub record SerialPortConfig (Flow : Type 0) : Type 0 where
  pub config : List ℕ
  pub baudrate : ℕ
  pub hardware_flow_control : Flow

unfoldable pub show_data_bits : DataBits → ℕ
show_data_bits seven = b'7'
show_data_bits eight = b'8'

unfoldable pub show_parity : Parity → ℕ
show_parity none = b'N'
show_parity odd = b'O'
show_parity even = b'E'

unfoldable pub show_stop_bits : StopBits → ℕ
show_stop_bits one = b'1'
show_stop_bits two = b'2'

settings_back :
    (d : DataBits) (p : Parity) (s : StopBits)
    → parse_serial_settings (show_data_bits d ∷ show_parity p ∷ show_stop_bits s ∷ [])
      ≡ ok (d, p, s)
unfolding parse_serial_settings show_data_bits show_parity show_stop_bits
settings_back d p s = ground arith

module _ {Flow : Type 0} where
  with_settings :
      SerialPortConfig Flow → Result (DataBits × Parity × StopBits) → Result (SerialParams Flow)
  with_settings c (ok (data_bits, parity, stop_bits)) = ok (record {
    baud = c.baudrate;
    data_bits = data_bits;
    stop_bits = stop_bits;
    parity = parity;
    hardware_flow_control = c.hardware_flow_control;
  })
  with_settings c (err e) = err e

  unfoldable pub try_into : SerialPortConfig Flow → Result (SerialParams Flow)
  unfolding with_settings parse_serial_settings
  try_into c = with_settings c (parse_serial_settings c.config)

  -- `From<SerialParams> for SerialPortConfig`
  unfoldable pub from : SerialParams Flow → SerialPortConfig Flow
  unfolding show_data_bits show_parity show_stop_bits
  from p = record {
    config = show_data_bits p.data_bits ∷ show_parity p.parity ∷ show_stop_bits p.stop_bits ∷ [];
    baudrate = p.baud;
    hardware_flow_control = p.hardware_flow_control;
  }

  -- The configuration text that is made of serial port parameters is parsed as these parameters.
  pub try_into-from : (p : SerialParams Flow) → try_into (from p) ≡ ok p
  unfolding try_into from
  try_into-from p = rw (settings_back p.data_bits p.parity p.stop_bits)
