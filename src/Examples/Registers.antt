-- ===== src/Examples/Registers.antt =====
-- ModBus registers: coils and words, and frames of RTU and TCP.
use comsrv.Base.{ℕ, ◌≡◌, ◌≢◌, refl, Bool, true, false, List, [], ◌∷◌, ◌++◌, arith}
use comsrv.Base.Chunks.{chunks}
use comsrv.Protocol.Error.{ok}
use comsrv.ModBus.Crc.{crc, with_crc, crc-with_crc}
use comsrv.ModBus.Registers.{ReadU16Registers, ReadBoolRegisters, read_bool, pack_all}
use comsrv.ModBus.Registers.Bools.{parse_frame-short}

crc-with_crc_example : crc (with_crc (17 ∷ 3 ∷ [])) ≡ 0
crc-with_crc_example = crc-with_crc (17 ∷ 3 ∷ []) (omega arith, (omega arith, tt))

abbrev nine_coils : List Bool
nine_coils = true ∷ false ∷ true ∷ true ∷ false ∷ false ∷ false ∷ true ∷ true ∷ []

abbrev read_nine : ReadBoolRegisters
read_nine = record { function_code = 1; address = 16; cnt = 9 }

parse_frame-short_example :
    (read_bool read_nine).parse_frame (pack_all (chunks 8 nine_coils) ++ []) ≢ ok nine_coils
parse_frame-short_example = parse_frame-short read_nine nine_coils [] (omega arith) refl

abbrev two_words : List ℕ
two_words = 513 ∷ 65535 ∷ []

abbrev read_two : ReadU16Registers
read_two = record { function_code = 3; address = 16; cnt = 2 }
