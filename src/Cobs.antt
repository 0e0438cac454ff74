-- ===== src/Cobs.antt =====
-- comsrv/src/protocol/bytestream/cobs.rs: `cobs_encode` and `cobs_decode`.
pub mod Blocks
pub mod RoundTrip
pub mod Frame
pub mod Streaming
use comsrv.Base.{
  ℕ, zero, suc, ◌+◌, ◌-◌, Bool, true, false, ◌&&◌, List, [], ◌∷◌, ◌++◌, Option, none, some, length,
  set, get_or, take, ltb, ◌==◌, if◌then◌else◌, as_u8,
}

-- The local variables of `cobs_encode`.
pub record Encoder : Type 0 where
  pub code_index : ℕ
  pub code : ℕ
  pub ret : List ℕ

-- `ret[code_index] = code; code = 1; code_index = ret.len(); ret.push(0);`
unfoldable pub close_block : Encoder → Encoder
close_block s =
    let ret = set s.ret s.code_index s.code in
    record { code_index = length ret; code = 1; ret = ret ++ 0 ∷ [] }

-- The body of the loop over the data.
unfoldable pub encode_step : Encoder → ℕ → Encoder
unfolding close_block
encode_step s x =
    let s' = record s { code = as_u8 (s.code + 1); ret = s.ret ++ x ∷ [] } in
    if x == 0 then close_block s else if s'.code == 0xFF then close_block s' else s'

unfoldable pub encode_loop : Encoder → List ℕ → Encoder
unfolding encode_step
encode_loop s [] = s
encode_loop s (x ∷ xs) = encode_loop (encode_step s x) xs

unfoldable pub cobs_encode : List ℕ → List ℕ
unfolding encode_loop
cobs_encode xs =
    let s = encode_loop (record { code_index = 0; code = 1; ret = 0 ∷ [] }) xs in
    set s.ret s.code_index s.code ++ 0 ∷ []

-- `for _ in 1..code { if k >= buf.len() { break; } … }`: what is left of the buffer, and `ret`.
unfoldable pub copy_block : ℕ → List ℕ → List ℕ → List ℕ × List ℕ
copy_block zero buf ret = (buf, ret)
copy_block (suc n) [] ret = ([], ret)
copy_block (suc n) (x ∷ buf) ret = copy_block n buf (ret ++ x ∷ [])

non_empty : List ℕ → Bool
non_empty [] = false
non_empty (x ∷ xs) = true

-- The `while` loop, over `buf[k..]`; `none` if the fuel runs out.
unfoldable pub decode_loop : ℕ → List ℕ → List ℕ → Option (List ℕ)
unfolding copy_block non_empty
decode_loop fuel [] ret = some ret
decode_loop zero (code ∷ buf) ret = none
decode_loop (suc fuel) (code ∷ buf) ret =
    let (buf', ret') = copy_block (code - 1) buf ret in
    decode_loop fuel buf' (if ltb code 0xFF && non_empty buf' then ret' ++ 0 ∷ [] else ret')

-- `if buf[buf.len() - 1] == 0 { buf = &buf[0..buf.len() - 1]; }`
unfoldable pub strip_end : List ℕ → List ℕ
strip_end buf = if get_or buf (length buf - 1) 0 == 0 then take (length buf - 1) buf else buf

unfoldable pub or_empty : Option (List ℕ) → List ℕ
or_empty none = []
or_empty (some xs) = xs

-- Each round of the loop takes a byte at least, so the fuel does not run out.
unfoldable pub cobs_decode : List ℕ → List ℕ
unfolding decode_loop strip_end or_empty
cobs_decode [] = []
cobs_decode (x ∷ xs) = let buf = strip_end (x ∷ xs) in or_empty (decode_loop (length buf) buf [])
