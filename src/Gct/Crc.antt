-- ===== src/Gct/Crc.antt =====
-- comsrv/src/protocol/can/crc.rs: the table-driven CRC-16 of a DDP message.
pub mod Bitwise
use comsrv.Base.{
  ℕ, ◌+◌, ◌-◌, ◌*◌, ◌/◌, ◌%◌, ◌<◌, ◌≡◌, refl, true, List, [], ◌∷◌, ◌++◌, bit_and, bit_xor, arith,
  get_or, ltb, holds_below, holds_below_at, length, length-append, take, take-append, IsU16, as_u8,
  shl16, shr,
}
use comsrv.Base.Bits.{bit_and_mask, bit_xor_self, bit_xor-lt, zero-bit_xor}

table : List ℕ
table =
    0x0000 ∷ 0x1021 ∷ 0x2042 ∷ 0x3063 ∷ 0x4084 ∷ 0x50A5 ∷ 0x60C6 ∷ 0x70E7 ∷ 0x8108 ∷ 0x9129 ∷ 0xA14A
    ∷ 0xB16B ∷ 0xC18C ∷ 0xD1AD ∷ 0xE1CE ∷ 0xF1EF ∷ 0x1231 ∷ 0x0210 ∷ 0x3273 ∷ 0x2252 ∷ 0x52B5
    ∷ 0x4294 ∷ 0x72F7 ∷ 0x62D6 ∷ 0x9339 ∷ 0x8318 ∷ 0xB37B ∷ 0xA35A ∷ 0xD3BD ∷ 0xC39C ∷ 0xF3FF
    ∷ 0xE3DE ∷ 0x2462 ∷ 0x3443 ∷ 0x0420 ∷ 0x1401 ∷ 0x64E6 ∷ 0x74C7 ∷ 0x44A4 ∷ 0x5485 ∷ 0xA56A
    ∷ 0xB54B ∷ 0x8528 ∷ 0x9509 ∷ 0xE5EE ∷ 0xF5CF ∷ 0xC5AC ∷ 0xD58D ∷ 0x3653 ∷ 0x2672 ∷ 0x1611
    ∷ 0x0630 ∷ 0x76D7 ∷ 0x66F6 ∷ 0x5695 ∷ 0x46B4 ∷ 0xB75B ∷ 0xA77A ∷ 0x9719 ∷ 0x8738 ∷ 0xF7DF
    ∷ 0xE7FE ∷ 0xD79D ∷ 0xC7BC ∷ 0x48C4 ∷ 0x58E5 ∷ 0x6886 ∷ 0x78A7 ∷ 0x0840 ∷ 0x1861 ∷ 0x2802
    ∷ 0x3823 ∷ 0xC9CC ∷ 0xD9ED ∷ 0xE98E ∷ 0xF9AF ∷ 0x8948 ∷ 0x9969 ∷ 0xA90A ∷ 0xB92B ∷ 0x5AF5
    ∷ 0x4AD4 ∷ 0x7AB7 ∷ 0x6A96 ∷ 0x1A71 ∷ 0x0A50 ∷ 0x3A33 ∷ 0x2A12 ∷ 0xDBFD ∷ 0xCBDC ∷ 0xFBBF
    ∷ 0xEB9E ∷ 0x9B79 ∷ 0x8B58 ∷ 0xBB3B ∷ 0xAB1A ∷ 0x6CA6 ∷ 0x7C87 ∷ 0x4CE4 ∷ 0x5CC5 ∷ 0x2C22
    ∷ 0x3C03 ∷ 0x0C60 ∷ 0x1C41 ∷ 0xEDAE ∷ 0xFD8F ∷ 0xCDEC ∷ 0xDDCD ∷ 0xAD2A ∷ 0xBD0B ∷ 0x8D68
    ∷ 0x9D49 ∷ 0x7E97 ∷ 0x6EB6 ∷ 0x5ED5 ∷ 0x4EF4 ∷ 0x3E13 ∷ 0x2E32 ∷ 0x1E51 ∷ 0x0E70 ∷ 0xFF9F
    ∷ 0xEFBE ∷ 0xDFDD ∷ 0xCFFC ∷ 0xBF1B ∷ 0xAF3A ∷ 0x9F59 ∷ 0x8F78 ∷ 0x9188 ∷ 0x81A9 ∷ 0xB1CA
    ∷ 0xA1EB ∷ 0xD10C ∷ 0xC12D ∷ 0xF14E ∷ 0xE16F ∷ 0x1080 ∷ 0x00A1 ∷ 0x30C2 ∷ 0x20E3 ∷ 0x5004
    ∷ 0x4025 ∷ 0x7046 ∷ 0x6067 ∷ 0x83B9 ∷ 0x9398 ∷ 0xA3FB ∷ 0xB3DA ∷ 0xC33D ∷ 0xD31C ∷ 0xE37F
    ∷ 0xF35E ∷ 0x02B1 ∷ 0x1290 ∷ 0x22F3 ∷ 0x32D2 ∷ 0x4235 ∷ 0x5214 ∷ 0x6277 ∷ 0x7256 ∷ 0xB5EA
    ∷ 0xA5CB ∷ 0x95A8 ∷ 0x8589 ∷ 0xF56E ∷ 0xE54F ∷ 0xD52C ∷ 0xC50D ∷ 0x34E2 ∷ 0x24C3 ∷ 0x14A0
    ∷ 0x0481 ∷ 0x7466 ∷ 0x6447 ∷ 0x5424 ∷ 0x4405 ∷ 0xA7DB ∷ 0xB7FA ∷ 0x8799 ∷ 0x97B8 ∷ 0xE75F
    ∷ 0xF77E ∷ 0xC71D ∷ 0xD73C ∷ 0x26D3 ∷ 0x36F2 ∷ 0x0691 ∷ 0x16B0 ∷ 0x6657 ∷ 0x7676 ∷ 0x4615
    ∷ 0x5634 ∷ 0xD94C ∷ 0xC96D ∷ 0xF90E ∷ 0xE92F ∷ 0x99C8 ∷ 0x89E9 ∷ 0xB98A ∷ 0xA9AB ∷ 0x5844
    ∷ 0x4865 ∷ 0x7806 ∷ 0x6827 ∷ 0x18C0 ∷ 0x08E1 ∷ 0x3882 ∷ 0x28A3 ∷ 0xCB7D ∷ 0xDB5C ∷ 0xEB3F
    ∷ 0xFB1E ∷ 0x8BF9 ∷ 0x9BD8 ∷ 0xABBB ∷ 0xBB9A ∷ 0x4A75 ∷ 0x5A54 ∷ 0x6A37 ∷ 0x7A16 ∷ 0x0AF1
    ∷ 0x1AD0 ∷ 0x2AB3 ∷ 0x3A92 ∷ 0xFD2E ∷ 0xED0F ∷ 0xDD6C ∷ 0xCD4D ∷ 0xBDAA ∷ 0xAD8B ∷ 0x9DE8
    ∷ 0x8DC9 ∷ 0x7C26 ∷ 0x6C07 ∷ 0x5C64 ∷ 0x4C45 ∷ 0x3CA2 ∷ 0x2C83 ∷ 0x1CE0 ∷ 0x0CC1 ∷ 0xEF1F
    ∷ 0xFF3E ∷ 0xCF5D ∷ 0xDF7C ∷ 0xAF9B ∷ 0xBFBA ∷ 0x8FD9 ∷ 0x9FF8 ∷ 0x6E17 ∷ 0x7E36 ∷ 0x4E55
    ∷ 0x5E74 ∷ 0x2E93 ∷ 0x3EB2 ∷ 0x0ED1 ∷ 0x1EF0 ∷ []

crc_step : ℕ → ℕ → ℕ
crc_step crc x =
    let idx = bit_and (bit_xor (shr crc 8) x) 0xFF in bit_xor (get_or table idx 0) (shl16 crc 8)

-- The loop of `crc16`, from any register.
crc_loop : ℕ → List ℕ → ℕ
crc_loop crc [] = crc
crc_loop crc (x ∷ xs) = crc_loop (crc_step crc x) xs

unfoldable pub crc16 : List ℕ → ℕ
unfolding crc_loop crc_step table
crc16 xs = crc_loop 0xFFFF xs

crc_loop-append :
    (crc : ℕ) (xs ys : List ℕ) → crc_loop crc (xs ++ ys) ≡ crc_loop (crc_loop crc xs) ys
unfolding crc_loop
crc_loop-append crc [] ys = refl
crc_loop-append crc (x ∷ xs) ys = crc_loop-append (crc_step crc x) xs ys

table_words : holds_below (λ i. ltb (get_or table i 0) 65536) 256 ≡ true
unfolding holds_below table
table_words = refl

table-lt : (i : ℕ) → i < 256 → get_or table i 0 < 65536
table-lt i h =
    ground (arith, holds_below_at (λ i. ltb (get_or table i 0) 65536) 256 i h table_words)

table_zero : get_or table 0 0 ≡ 0
unfolding table
table_zero = refl

crc_step-IsU16 : (crc x : ℕ) → IsU16 (crc_step crc x)
unfolding crc_step
crc_step-IsU16 crc x =
    let idx = bit_and (bit_xor (shr crc 8) x) 0xFF in
    bit_xor-lt 16 _ _ (table-lt idx (omega (arith, bit_and_mask 8 (bit_xor (shr crc 8) x))))
      (omega arith)

crc_loop-IsU16 : (crc : ℕ) (xs : List ℕ) → IsU16 crc → IsU16 (crc_loop crc xs)
unfolding crc_loop
crc_loop-IsU16 crc [] h = h
crc_loop-IsU16 crc (x ∷ xs) h = crc_loop-IsU16 (crc_step crc x) xs (crc_step-IsU16 crc x)

pub crc16-IsU16 : (xs : List ℕ) → IsU16 (crc16 xs)
unfolding crc16
crc16-IsU16 xs = crc_loop-IsU16 0xFFFF xs (omega arith)

-- A register meets its own high byte: the table entry is 0, and the low byte moves up.
crc_step_high : (crc : ℕ) → IsU16 crc → crc_step crc (crc / 256) ≡ crc % 256 * 256
unfolding crc_step
crc_step_high crc h =
    rw (bit_xor_self 8 (crc / 256) (omega arith), table_zero)
      (omega (arith, zero-bit_xor (crc * 256 % 65536)))

crc_step_low : (lo : ℕ) → lo < 256 → crc_step (lo * 256) lo ≡ 0
unfolding crc_step
crc_step_low lo h =
    let e : lo * 256 / 256 ≡ lo = omega arith in
    rw (e, bit_xor_self 8 lo h, table_zero) (omega (arith, zero-bit_xor (lo * 256 * 256 % 65536)))

-- The two bytes that `encode` appends to the data.
abbrev pub with_crc : List ℕ → List ℕ
with_crc xs = xs ++ as_u8 (shr (crc16 xs) 8) ∷ as_u8 (bit_and (crc16 xs) 0xFF) ∷ []

own_bytes :
    (crc : ℕ) → IsU16 crc → crc_loop crc (as_u8 (shr crc 8) ∷ as_u8 (bit_and crc 0xFF) ∷ []) ≡ 0
unfolding crc_loop
own_bytes crc h =
    let hi : crc / 256 % 256 ≡ crc / 256 = omega arith in
    let lo : bit_and crc 0xFF % 256 ≡ crc % 256 = omega (arith, bit_and_mask 8 crc) in
    rw (hi, lo, crc_step_high crc h) (crc_step_low (crc % 256) (omega arith))

-- Data with its checksum, high byte first, has the checksum 0.
pub crc16-with_crc : (xs : List ℕ) → crc16 (with_crc xs) ≡ 0
unfolding crc16
crc16-with_crc xs = rw crc_loop-append (own_bytes (crc_loop 0xFFFF xs) (crc16-IsU16 xs))

pub length-with_crc : (xs : List ℕ) → length (with_crc xs) ≡ length xs + 2
length-with_crc xs =
    omega
      (arith, length-append xs (as_u8 (shr (crc16 xs) 8) ∷ as_u8 (bit_and (crc16 xs) 0xFF) ∷ []))

-- The two bytes come off again.
pub take-with_crc : (xs : List ℕ) → take (length (with_crc xs) - 2) (with_crc xs) ≡ xs
take-with_crc xs = take-append _ xs _ (omega (arith, length-with_crc xs))
