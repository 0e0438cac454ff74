-- ===== src/ModBus/Crc.antt =====
-- `crc` of comsrv/src/protocol/modbus/rtu.rs, bit by bit.
use comsrv.Base.{
  ℕ, zero, suc, ◌+◌, ◌*◌, ◌/◌, ◌%◌, ◌^◌, ◌≡◌, refl, ap, List, [], ◌∷◌, ◌++◌, bit_and, bit_xor,
  arith, ◌!=◌, if◌then◌else◌, All, IsByte, IsU16, shr, length, length-append, to_le_bytes,
}
use native.Mathlib.Nat.{pow-suc}
use comsrv.Base.Bits.{bit_and_mask, bit_xor-lt, bit_xor_low, bit_xor_self}

crc_bit : ℕ → ℕ
crc_bit crc = if bit_and crc 1 != 0 then bit_xor (shr crc 1) 0xA001 else shr crc 1

-- `for _ in 0..8`
crc_bits : ℕ → ℕ → ℕ
unfolding crc_bit
crc_bits zero crc = crc
crc_bits (suc n) crc = crc_bits n (crc_bit crc)

crc_loop : ℕ → List ℕ → ℕ
crc_loop crc [] = crc
crc_loop crc (x ∷ xs) = crc_loop (crc_bits 8 (bit_xor crc x)) xs

unfoldable pub crc : List ℕ → ℕ
unfolding crc_loop crc_bits
crc xs = crc_loop 0xFFFF xs

-- `request.extend(&crc(&request).to_le_bytes())`
abbrev pub with_crc : List ℕ → List ℕ
with_crc xs = xs ++ to_le_bytes 2 (crc xs)

crc_loop-append : (c : ℕ) (xs ys : List ℕ) → crc_loop c (xs ++ ys) ≡ crc_loop (crc_loop c xs) ys
unfolding crc_loop
crc_loop-append c [] ys = refl
crc_loop-append c (x ∷ xs) ys = crc_loop-append (crc_bits 8 (bit_xor c x)) xs ys

crc_bit-IsU16 : (c : ℕ) → IsU16 c → IsU16 (crc_bit c)
unfolding crc_bit
crc_bit-IsU16 c h = ground (arith, bit_xor-lt 16 (c / 2) 0xA001)

crc_bits-IsU16 : (n c : ℕ) → IsU16 c → IsU16 (crc_bits n c)
unfolding crc_bits
crc_bits-IsU16 zero c h = h
crc_bits-IsU16 (suc n) c h = crc_bits-IsU16 n (crc_bit c) (crc_bit-IsU16 c h)

crc_loop-IsU16 : (c : ℕ) (xs : List ℕ) → IsU16 c → All IsByte xs → IsU16 (crc_loop c xs)
unfolding crc_loop
crc_loop-IsU16 c [] h a = h
crc_loop-IsU16 c (x ∷ xs) h (hx, a) =
    let c' = bit_xor c x in
    crc_loop-IsU16 (crc_bits 8 c') xs (crc_bits-IsU16 8 c' (bit_xor-lt 16 c x h (omega arith))) a

pub crc-IsU16 : (xs : List ℕ) → All IsByte xs → IsU16 (crc xs)
unfolding crc
crc-IsU16 xs a = crc_loop-IsU16 0xFFFF xs (omega arith) a

-- A register without low bits is only shifted.
crc_bit-even : (n : ℕ) → crc_bit (n * 2) ≡ n
unfolding crc_bit
crc_bit-even n = ground (arith, bit_and_mask 1 (n * 2))

shift_out : (k n : ℕ) → crc_bits k (n * 2 ^ k) ≡ n
unfolding crc_bits
shift_out zero n = omega arith
shift_out (suc k) n =
    let e : n * 2 ^ suc k ≡ n * 2 ^ k * 2 = omega (arith, ap (λ (t : ℕ). n * t) (pow-suc 2 k)) in
    rw (e, crc_bit-even (n * 2 ^ k)) (shift_out k n)

-- A register meets its own two bytes.
own_bytes : (c : ℕ) → IsU16 c → crc_loop c (c % 256 ∷ c / 256 % 256 ∷ []) ≡ 0
unfolding crc_loop
own_bytes c h =
    let low : bit_xor c (c % 256) ≡ c / 256 * 2 ^ 8 =
      ground (arith, bit_xor_low 8 (c / 256) (c % 256)) in
    let hi : c / 256 % 256 ≡ c / 256 = omega arith in
    rw (low, shift_out 8 (c / 256), hi, bit_xor_self 8 (c / 256) (omega arith)) (shift_out 8 0)

-- A request with its checksum, low byte first, has the checksum 0.
pub crc-with_crc : (xs : List ℕ) → All IsByte xs → crc (with_crc xs) ≡ 0
unfolding crc to_le_bytes
crc-with_crc xs a = rw crc_loop-append (own_bytes (crc_loop 0xFFFF xs) (crc-IsU16 xs a))

pub length-with_crc : (xs : List ℕ) → length (with_crc xs) ≡ length xs + 2
unfolding to_le_bytes
length-with_crc xs = length-append xs _
