-- ===== src/Cobs/RoundTrip.antt =====
-- `cobs_decode` reads back what `cobs_encode` wrote, and ends on every input.
use comsrv.Base.{
  ℕ, zero, suc, ◌+◌, ◌-◌, ◌≤◌, ◌<◌, ◌≡◌, refl, ap, ◌∙◌, true, false, List, [], ◌∷◌, ◌++◌, some,
  append-nil, append_assoc, length, length-append, take-append, get_or, ltb, ◌==◌, arith,
  if◌then◌else◌, Bool-cases, inl, inr,
}
use comsrv.Cobs.{cobs_encode, copy_block, decode_loop, strip_end, or_empty, cobs_decode}
use comsrv.Cobs.Blocks.{stuffed, cobs_encode-stuffed}

copy_block-append :
    (n : ℕ) (block buf ret : List ℕ)
    → n ≡ length block
    → copy_block n (block ++ buf) ret ≡ (buf, ret ++ block)
unfolding copy_block
copy_block-append zero [] buf ret h = ground (arith, append-nil ret)
copy_block-append zero (x ∷ block) buf ret h = absurd (omega arith)
copy_block-append (suc n) [] buf ret h = absurd (omega arith)
copy_block-append (suc n) (x ∷ block) buf ret h =
    copy_block-append n block buf (ret ++ x ∷ []) (omega arith)
    ∙ ap (λ (l : List ℕ). (buf, l)) (append_assoc ret (x ∷ []) block)

-- The loop takes a block and goes on behind it.
decode_block :
    (fuel code next : ℕ) (block tail buf ret : List ℕ)
    → code ≡ length block + 1
    → tail ≡ next ∷ buf
    → decode_loop (suc fuel) (code ∷ (block ++ tail)) ret
      ≡ decode_loop fuel tail (if ltb code 0xFF then (ret ++ block) ++ 0 ∷ [] else ret ++ block)
unfolding decode_loop
decode_block fuel code next block tail buf ret h e =
    rw (copy_block-append (code - 1) block tail ret (omega arith), decode_loop, e) (ground arith)

decode_last :
    (fuel code : ℕ) (block ret : List ℕ)
    → code ≡ length block + 1
    → decode_loop (suc fuel) (code ∷ block) ret ≡ some (ret ++ block)
unfolding decode_loop
decode_last fuel code block ret h =
    let copied = rw append-nil at (copy_block-append (code - 1) block [] ret (omega arith)) in
    rw (copied, decode_loop) (ground arith)

-- The three ways in which a byte goes into a frame.
module _ (block xs : List ℕ) (x : ℕ) where
  pub stuffed-zero :
      (x == 0) ≡ true → stuffed block (x ∷ xs) ≡ (length block + 1) ∷ (block ++ stuffed [] xs)
  unfolding stuffed
  stuffed-zero e = rw e

  pub stuffed-full :
      (x == 0) ≡ false
      → (length block == 253) ≡ true
      → stuffed block (x ∷ xs) ≡ 0xFF ∷ ((block ++ x ∷ []) ++ stuffed [] xs)
  unfolding stuffed
  stuffed-full e f = rw (e, f, append_assoc block (x ∷ []) (stuffed [] xs))

  pub stuffed-room :
      (x == 0) ≡ false
      → (length block == 253) ≡ false
      → stuffed block (x ∷ xs) ≡ stuffed (block ++ x ∷ []) xs
  unfolding stuffed
  stuffed-room e f = rw (e, f)

-- A frame is not empty.
pub stuffed_head : (block xs : List ℕ) → (c : ℕ) × (rest : List ℕ) × (stuffed block xs ≡ c ∷ rest)
unfolding stuffed
stuffed_head block [] = (length block + 1, block, refl)
stuffed_head block (x ∷ xs) = elim (Bool-cases (x == 0)) [
  | inl e ↦ (_, _, stuffed-zero block xs x e)
  | inr e ↦ elim (Bool-cases (length block == 253)) [
    | inl f ↦ (_, _, stuffed-full block xs x e f)
    | inr f ↦
        let (c, rest, h) = stuffed_head (block ++ x ∷ []) xs in
        (c, rest, stuffed-room block xs x e f ∙ h)
  ]
]

pub decode_loop-stuffed :
    (fuel : ℕ) (block xs ret : List ℕ)
    → length (stuffed block xs) ≤ fuel
    → length block < 254
    → decode_loop fuel (stuffed block xs) ret ≡ some (ret ++ (block ++ xs))
decode_loop-stuffed zero block xs ret h hb =
    let (c, rest, e) = stuffed_head block xs in absurd (omega (arith, ap length e))
decode_loop-stuffed (suc fuel) block [] ret h hb =
    unfold stuffed in rw append-nil (decode_last fuel (length block + 1) block ret refl)
decode_loop-stuffed (suc fuel) block (x ∷ xs) ret h hb =
    let (c, rest, head) = stuffed_head [] xs in
    elim (Bool-cases (x == 0)) [
      | inl e ↦
          let s = stuffed-zero block xs x e in
          let fits : length (stuffed [] xs) ≤ fuel =
            omega (arith, ap length s, length-append block (stuffed [] xs)) in
          let again =
            decode_loop-stuffed fuel [] xs ((ret ++ block) ++ 0 ∷ []) fits (omega arith) in
          rw (s, decode_block fuel (length block + 1) c block (stuffed [] xs) rest ret refl head)
            (ground (
              arith,
              again,
              append_assoc (ret ++ block) (0 ∷ []) xs,
              append_assoc ret block (0 ∷ xs),
            ))
      | inr e ↦ elim (Bool-cases (length block == 253)) [
        | inl f ↦
            let s = stuffed-full block xs x e f in
            let whole = block ++ x ∷ [] in
            let len = length-append block (x ∷ []) in
            let fits : length (stuffed [] xs) ≤ fuel =
              omega (arith, ap length s, length-append whole (stuffed [] xs)) in
            let again = decode_loop-stuffed fuel [] xs (ret ++ whole) fits (omega arith) in
            rw
              (
                s,
                decode_block fuel 0xFF c whole (stuffed [] xs) rest ret (ground (arith, len)) head,
                again,
              )
              (ap some (append_assoc ret whole xs ∙ ap (◌++◌ ret) (append_assoc block (x ∷ []) xs)))
        | inr f ↦
            let s = stuffed-room block xs x e f in
            let again =
              decode_loop-stuffed (suc fuel) (block ++ x ∷ []) xs ret (rw s at h)
                (ground (arith, length-append block (x ∷ []))) in
            rw (s, again, append_assoc block (x ∷ []) xs)
      ]
    ]

pub get_or_last : (xs : List ℕ) (v : ℕ) → get_or (xs ++ v ∷ []) (length xs) 0 ≡ v
get_or_last [] v = refl
get_or_last (x ∷ xs) v = get_or_last xs v

strip_end-append : (xs : List ℕ) → strip_end (xs ++ 0 ∷ []) ≡ xs
unfolding strip_end
strip_end-append xs =
    let len : length (xs ++ 0 ∷ []) - 1 ≡ length xs = omega (arith, length-append xs (0 ∷ [])) in
    rw (len, get_or_last xs 0, take-append (length xs) xs (0 ∷ []) refl)

pub cobs_decode-strip_end :
    (buf : List ℕ)
    → 1 ≤ length buf
    → cobs_decode buf ≡ or_empty (decode_loop (length (strip_end buf)) (strip_end buf) [])
unfolding cobs_decode
cobs_decode-strip_end [] h = absurd (omega arith)
cobs_decode-strip_end (x ∷ xs) h = refl

-- Data of any length and content comes back from its frame.
pub cobs_decode-cobs_encode : (xs : List ℕ) → cobs_decode (cobs_encode xs) ≡ xs
cobs_decode-cobs_encode xs =
    let body = stuffed [] xs in
    rw
      (
        cobs_encode-stuffed xs,
        cobs_decode-strip_end (body ++ 0 ∷ []) (omega (arith, length-append body (0 ∷ []))),
        strip_end-append body,
        decode_loop-stuffed (length body) [] xs [] (omega arith) (omega arith),
      )
      (unfold or_empty in refl)
