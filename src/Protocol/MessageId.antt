-- ===== src/Protocol/MessageId.antt =====
-- `MessageId` of protocol/src/can.rs: a 29 bit CAN identifier with four fields.
use comsrv.Base.{
  ℕ, ◌+◌, ◌*◌, ◌/◌, ◌%◌, ◌^◌, ◌<◌, ◌≡◌, bit_and, bit_or, arith, as_u8, as_u16, shl32, shr,
}
use comsrv.Base.Bits.{bit_and_mask, bit_or_fields}

unfoldable pub new : ℕ → ℕ → ℕ → ℕ → ℕ
new msg_type src dst type_data =
    bit_or
      (bit_or (bit_or (bit_and type_data 0x7FF) (shl32 (bit_and dst 0x7F) 11))
        (shl32 (bit_and src 0x7F) 18))
      (shl32 (bit_and msg_type 0xF) 25)

unfoldable pub msg_type : ℕ → ℕ
msg_type id = as_u8 (bit_and (shr id 25) 0xF)

unfoldable pub src : ℕ → ℕ
src id = as_u8 (bit_and (shr id 18) 0x7F)

unfoldable pub dst : ℕ → ℕ
dst id = as_u8 (bit_and (shr id 11) 0x7F)

unfoldable pub type_data : ℕ → ℕ
type_data id = as_u16 (bit_and id 0x7FF)

-- The identifier as a sum.
pub new-sum :
    (t s d y : ℕ)
    → t < 16
    → s < 128
    → d < 128
    → y < 2048
    → new t s d y ≡ y + d * 2 ^ 11 + s * 2 ^ 18 + t * 2 ^ 25
unfolding new
new-sum t s d y ht hs hd hy = ground (
  arith,
  bit_and_mask 11 y,
  bit_and_mask 7 d,
  bit_and_mask 7 s,
  bit_and_mask 4 t,
  bit_or_fields 11 d y,
  bit_or_fields 18 s (y + d * 2 ^ 11),
  bit_or_fields 25 t (y + d * 2 ^ 11 + s * 2 ^ 18),
)

-- From an identifier made of a message type below 16, a source and a destination below 128 and
-- type data below 2048, the four accessors return these four.
pub new_fields :
    (t s d y : ℕ)
    → t < 16
    → s < 128
    → d < 128
    → y < 2048
    → (msg_type (new t s d y) ≡ t)
      × (src (new t s d y) ≡ s)
      × (dst (new t s d y) ≡ d)
      × (type_data (new t s d y) ≡ y)
unfolding msg_type src dst type_data
new_fields t s d y ht hs hd hy = omega (
  arith,
  new-sum t s d y ht hs hd hy,
  bit_and_mask 4 (new t s d y / 2 ^ 25),
  bit_and_mask 7 (new t s d y / 2 ^ 18),
  bit_and_mask 7 (new t s d y / 2 ^ 11),
  bit_and_mask 11 (new t s d y),
)

pub new-lt : (t s d y : ℕ) → t < 16 → s < 128 → d < 128 → y < 2048 → new t s d y < 2 ^ 29
new-lt t s d y ht hs hd hy = omega (arith, new-sum t s d y ht hs hd hy)

-- The fields of any identifier lie in their ranges.
pub fields_bounds :
    (id : ℕ) → (msg_type id < 16) × (src id < 128) × (dst id < 128) × (type_data id < 2048)
unfolding msg_type src dst type_data
fields_bounds id = omega (
  arith,
  bit_and_mask 4 (id / 2 ^ 25),
  bit_and_mask 7 (id / 2 ^ 18),
  bit_and_mask 7 (id / 2 ^ 11),
  bit_and_mask 11 id,
)

-- An identifier below 2^29 is the one made of its four fields.
pub fields-new : (id : ℕ) → id < 2 ^ 29 → new (msg_type id) (src id) (dst id) (type_data id) ≡ id
unfolding msg_type src dst type_data
fields-new id h =
    let (ht, hs, hd, hy) = fields_bounds id in
    omega (
      arith,
      new-sum (msg_type id) (src id) (dst id) (type_data id) ht hs hd hy,
      bit_and_mask 4 (id / 2 ^ 25),
      bit_and_mask 7 (id / 2 ^ 18),
      bit_and_mask 7 (id / 2 ^ 11),
      bit_and_mask 11 id,
    )

-- Only 11 bits of the type data get into an identifier.
pub new_wraps : (t s d y : ℕ) → new t s d y ≡ new t s d (y % 2048)
unfolding new
new_wraps t s d y =
    let e : bit_and y 0x7FF ≡ bit_and (y % 2048) 0x7FF =
      omega (arith, bit_and_mask 11 y, bit_and_mask 11 (y % 2048)) in
    rw e
