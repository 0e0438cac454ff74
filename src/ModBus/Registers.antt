-- ===== src/ModBus/Registers.antt =====
-- comsrv/src/protocol/modbus/registers.rs: the function codes that read and write registers.
pub mod Bools
pub mod Words
use comsrv.Base.{
  ℕ, zero, suc, ◌+◌, ◌-◌, ◌*◌, ◌/◌, Bool, true, false, List, [], ◌∷◌, ◌++◌, length, take, get_or,
  bit_and, bit_or, ltb, ◌==◌, ◌!=◌, if◌then◌else◌, as_u8, as_u16, shr,
}
use comsrv.Base.Chunks.{chunks}
use comsrv.Protocol.Error.{Result, ok, err, argument_error, protocol_error, ◌>>=◌, ◌>>◌}
use comsrv.ModBus.{FunctionCode}

-- `u16::to_be_bytes` and `u16::from_be_bytes`.
abbrev pub to_be_bytes : ℕ → List ℕ
to_be_bytes w = as_u8 (shr w 8) ∷ as_u8 w ∷ []

abbrev pub from_be_bytes : ℕ → ℕ → ℕ
from_be_bytes hi lo = hi * 256 + lo

pub record ReadU16Registers : Type 0 where
  pub function_code : ℕ
  pub address : ℕ
  pub cnt : ℕ

unfoldable pub new_read_u16 : ℕ → ℕ → ℕ → Result ReadU16Registers
new_read_u16 function_code address cnt =
    if cnt == 0
    then err argument_error
    else if ltb 125 cnt
    then err argument_error
    else ok (record { function_code = function_code; address = address; cnt = cnt })

-- `x[0]` and `x[1]` of a chunk of two bytes.
unfoldable pub words : List (List ℕ) → List ℕ
words [] = []
words (x ∷ xs) = from_be_bytes (get_or x 0 0) (get_or x 1 0) ∷ words xs

-- The guard of `get_data_length_from_header` keeps the slice `data[0..2 * cnt]` within `data`.
unfoldable pub read_u16 : ReadU16Registers → FunctionCode (List ℕ)
unfolding words
read_u16 r = record {
  format_request = λ req. req ++ to_be_bytes r.address ++ to_be_bytes r.cnt;
  get_header_length = 1;
  get_data_length_from_header = λ header.
      let len = get_or header 0 0 in if ltb len (2 * r.cnt) then err protocol_error else ok len;
  parse_frame = λ frame. ok (words (take r.cnt (chunks 2 (take (2 * r.cnt) frame))));
  function_code = r.function_code;
}

pub record ReadBoolRegisters : Type 0 where
  pub function_code : ℕ
  pub address : ℕ
  pub cnt : ℕ

unfoldable pub new_read_bool : ℕ → ℕ → ℕ → Result ReadBoolRegisters
new_read_bool function_code address cnt =
    if cnt == 0
    then err argument_error
    else if ltb 1968 cnt
    then err argument_error
    else ok (record { function_code = function_code; address = address; cnt = cnt })

abbrev pub expected_byte_count : ReadBoolRegisters → ℕ
expected_byte_count r = (r.cnt - 1) / 8 + 1

-- The inner loop over the bits of `x`: `true` beside the list if it breaks out of both loops.
unfoldable pub push_bits : ℕ → ℕ → ℕ → List Bool → List Bool × Bool
push_bits zero limit x ret = (ret, false)
push_bits (suc n) limit x ret =
    let ret' = ret ++ (bit_and x 1 == 1) ∷ [] in
    let rest = push_bits n limit (shr x 1) ret' in
    if length ret' == limit then (ret', true) else rest

unfoldable pub push_bytes : ℕ → List ℕ → List Bool → List Bool
unfolding push_bits
push_bytes limit [] ret = ret
push_bytes limit (x ∷ xs) ret =
    let (ret', broke) = push_bits 8 limit x ret in
    let rest = push_bytes limit xs ret' in if broke then ret' else rest

-- The loops stop at `expected_byte_count` values.
unfoldable pub read_bool : ReadBoolRegisters → FunctionCode (List Bool)
unfolding push_bytes
read_bool r = record {
  format_request = λ req. req ++ to_be_bytes r.address ++ to_be_bytes r.cnt;
  get_header_length = 1;
  get_data_length_from_header = λ header.
      let len = get_or header 0 0 in
      if ltb len (expected_byte_count r) then err protocol_error else ok len;
  parse_frame =
      λ frame. ok (push_bytes (expected_byte_count r) (take (expected_byte_count r) frame) []);
  function_code = r.function_code;
}

unfoldable pub check_write_header : List ℕ → ℕ → ℕ → Result (Unit {0})
check_write_header reply addr num_regs =
    let starting_address = from_be_bytes (get_or reply 0 0) (get_or reply 1 0) in
    let num_outputs = from_be_bytes (get_or reply 2 0) (get_or reply 3 0) in
    if starting_address != addr
    then err protocol_error
    else if num_regs != num_outputs
    then err protocol_error
    else ok tt

pub record WriteCoils : Type 0 where
  pub address : ℕ
  pub coils : List Bool

unfoldable pub new_write_coils : ℕ → List Bool → Result WriteCoils
new_write_coils address coils =
    if length coils == 0
    then err argument_error
    else if ltb 0x7B0 (length coils)
    then err argument_error
    else ok (record { address = address; coils = coils })

-- `byte |= 1 << k` for the bits of a chunk that are set.
unfoldable pub pack_bits : ℕ → ℕ → List Bool → ℕ
pack_bits byte bit [] = byte
pack_bits byte bit (true ∷ xs) = pack_bits (bit_or byte bit) (2 * bit) xs
pack_bits byte bit (false ∷ xs) = pack_bits byte (2 * bit) xs

unfoldable pub pack_all : List (List Bool) → List ℕ
unfolding pack_bits
pack_all [] = []
pack_all (chunk ∷ chunks) = pack_bits 0 1 chunk ∷ pack_all chunks

-- The request has no byte count before the packed bits.
unfoldable pub write_coils : WriteCoils → FunctionCode (Unit {0})
unfolding pack_all check_write_header
write_coils w = record {
  format_request = λ req.
      req
      ++ to_be_bytes w.address
      ++ to_be_bytes (as_u16 (length w.coils))
      ++ pack_all (chunks 8 w.coils);
  get_header_length = 4;
  get_data_length_from_header = λ header. do
    check_write_header header w.address (length w.coils)
    ok 0;
  parse_frame = λ _. ok tt;
  function_code = 15;
}

pub record WriteRegisters : Type 0 where
  pub address : ℕ
  pub values : List ℕ

unfoldable pub new_write_registers : ℕ → List ℕ → Result WriteRegisters
new_write_registers address values =
    if length values == 0
    then err argument_error
    else if ltb 125 (length values)
    then err argument_error
    else ok (record { address = address; values = values })

unfoldable pub words_bytes : List ℕ → List ℕ
words_bytes [] = []
words_bytes (x ∷ xs) = to_be_bytes x ++ words_bytes xs

unfoldable pub write_registers : WriteRegisters → FunctionCode (Unit {0})
unfolding words_bytes check_write_header
write_registers w = record {
  format_request = λ req.
      req
      ++ to_be_bytes w.address
      ++ to_be_bytes (as_u16 (length w.values))
      ++ as_u8 (2 * as_u8 (length w.values)) ∷ words_bytes w.values;
  get_header_length = 4;
  get_data_length_from_header = λ header. do
    check_write_header header w.address (length w.values)
    ok 0;
  parse_frame = λ _. ok tt;
  function_code = 16;
}
