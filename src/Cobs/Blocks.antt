-- ===== src/Cobs/Blocks.antt =====
-- What `cobs_encode` writes, block by block, and `decode_loop` on any input.
use comsrv.Base.{
  ℕ, ◌+◌, ◌<◌, ◌≡◌, refl, ap, List, [], ◌∷◌, ◌++◌, append_assoc, length, length-append, set, ◌==◌,
  arith, as_u8, if◌then◌else◌, Bool-cases, inl, inr,
}
use comsrv.Cobs.{Encoder, close_block, encode_step, encode_loop, cobs_encode}

-- The frame without its closing 0, where `block` holds the bytes of the open block: a block ends at
-- a zero of the data, at 254 bytes, or with the data.
unfoldable pub stuffed : List ℕ → List ℕ → List ℕ
stuffed block [] = (length block + 1) ∷ block
stuffed block (x ∷ xs) =
    let closed = (length block + 1) ∷ (block ++ stuffed [] xs) in
    let full = 0xFF ∷ (block ++ x ∷ stuffed [] xs) in
    let longer = stuffed (block ++ x ∷ []) xs in
    if x == 0 then closed else if length block == 253 then full else longer

set-append : (pre rest : List ℕ) (x v : ℕ) → set (pre ++ x ∷ rest) (length pre) v ≡ pre ++ v ∷ rest
set-append [] rest x v = refl
set-append (p ∷ pre) rest x v = ap (◌∷◌ p) (set-append pre rest x v)

-- The encoder with the blocks `pre` written and the block `block` open.
abbrev at_block : List ℕ → List ℕ → Encoder
at_block pre block = record {
  code_index = length pre;
  code = length block + 1;
  ret = pre ++ 0 ∷ block;
}

close_block-at_block :
    (pre block : List ℕ)
    → close_block (at_block pre block) ≡ at_block (pre ++ (length block + 1) ∷ block) []
unfolding close_block
close_block-at_block pre block = rw set-append

longer :
    (pre block : List ℕ) (x : ℕ)
    → length block < 254
    → record (at_block pre block) {
      code = as_u8 (length block + 1 + 1);
      ret = (pre ++ 0 ∷ block) ++ x ∷ [];
    }
      ≡ at_block pre (block ++ x ∷ [])
longer pre block x h =
    ground (arith, append_assoc pre (0 ∷ block) (x ∷ []), length-append block (x ∷ []))

encode_step-at_block :
    (pre block : List ℕ) (x : ℕ)
    → length block < 254
    → encode_step (at_block pre block) x ≡ (
        if x == 0
        then at_block (pre ++ (length block + 1) ∷ block) []
        else if length block == 253
        then at_block (pre ++ 0xFF ∷ (block ++ x ∷ [])) []
        else at_block pre (block ++ x ∷ []))
unfolding encode_step
encode_step-at_block pre block x h =
    let close_full = ap close_block (longer pre block x h) in
    ground (
      arith,
      longer pre block x h,
      close_full,
      close_block-at_block pre block,
      close_block-at_block pre (block ++ x ∷ []),
      length-append block (x ∷ []),
    )

-- What `cobs_encode` returns before the closing 0, from a state of its loop.
abbrev finished : Encoder → List ℕ
finished s = set s.ret s.code_index s.code

encode_loop-at_block :
    (pre block xs : List ℕ)
    → length block < 254
    → finished (encode_loop (at_block pre block) xs) ≡ pre ++ stuffed block xs
unfolding encode_loop stuffed
encode_loop-at_block pre block [] h = set-append pre block 0 (length block + 1)
encode_loop-at_block pre block (x ∷ xs) h =
    rw (encode_step-at_block pre block x h, encode_loop)
      (elim (Bool-cases (x == 0)) [
        | inl zero_byte ↦
            rw
              (
                zero_byte,
                encode_loop-at_block (pre ++ (length block + 1) ∷ block) [] xs (omega arith),
              )
              (append_assoc pre ((length block + 1) ∷ block) (stuffed [] xs))
        | inr other ↦ elim (Bool-cases (length block == 253)) [
          | inl full ↦ rw (
            other,
            full,
            encode_loop-at_block (pre ++ 0xFF ∷ (block ++ x ∷ [])) [] xs (omega arith),
            append_assoc pre (0xFF ∷ (block ++ x ∷ [])) (stuffed [] xs),
            append_assoc block (x ∷ []) (stuffed [] xs),
          )
          | inr room ↦ rw (
            other,
            room,
            encode_loop-at_block pre (block ++ x ∷ []) xs
                (ground (arith, length-append block (x ∷ []))),
          )
        ]
      ])

pub cobs_encode-stuffed : (xs : List ℕ) → cobs_encode xs ≡ stuffed [] xs ++ 0 ∷ []
unfolding cobs_encode
cobs_encode-stuffed xs =
    ap (λ (l : List ℕ). l ++ 0 ∷ []) (encode_loop-at_block [] [] xs (omega arith))
