-- ===== src/Cobs/Frame.antt =====
-- The shape of a COBS frame: no zero before its end, bytes, and a bounded overhead; and
-- `cobs_decode` on any input.
use comsrv.Base.{
  ℕ, zero, suc, ◌+◌, ◌-◌, ◌*◌, ◌/◌, ◌≤◌, ◌<◌, ◌≡◌, ◌≢◌, refl, ap, ◌∙◌, false, List, [], ◌∷◌, ◌++◌,
  some, All, All-append, length, length-append, length-take, get_or, ltb, ◌&&◌, ◌==◌, arith,
  if◌then◌else◌, Bool-cases, inl, inr, IsByte,
}
use comsrv.Cobs.{cobs_encode, copy_block, decode_loop, strip_end, or_empty, cobs_decode, non_empty}
use comsrv.Cobs.Blocks.{stuffed, cobs_encode-stuffed}
use comsrv.Cobs.RoundTrip.{
  stuffed-zero, stuffed-full, stuffed-room, decode_loop-stuffed, cobs_decode-strip_end,
  stuffed_head,
}

abbrev pub NonZero : ℕ → Type 0
NonZero b = b ≢ 0

-- A property of bytes that block lengths have, and the bytes of the data where they are not 0.
module _ (P : ℕ → Type 0) (Q : ℕ → Type 0) (of_length : (n : ℕ) → 1 ≤ n → n ≤ 255 → P n)
    (of_data : (x : ℕ) → (x == 0) ≡ false → Q x → P x) where
  stuffed-All :
      (block xs : List ℕ) → length block < 254 → All P block → All Q xs → All P (stuffed block xs)
  stuffed-All block [] h hb hx = unfold stuffed in (of_length _ (omega arith) (omega arith), hb)
  stuffed-All block (x ∷ xs) h hb (qx, hx) = elim (Bool-cases (x == 0)) [
    | inl e ↦ rw (stuffed-zero block xs x e) (
      of_length _ (omega arith) (omega arith),
      All-append P block _ hb (stuffed-All [] xs (omega arith) tt hx),
    )
    | inr e ↦
        let longer = All-append P block (x ∷ []) hb (of_data x e qx, tt) in
        elim (Bool-cases (length block == 253)) [
          | inl f ↦ rw (stuffed-full block xs x e f) (
            of_length _ (omega arith) (omega arith),
            All-append P (block ++ x ∷ []) _ longer (stuffed-All [] xs (omega arith) tt hx),
          )
          | inr f ↦ rw (stuffed-room block xs x e f) (
              stuffed-All (block ++ x ∷ []) xs (ground (arith, length-append block (x ∷ []))) longer
                hx)
        ]
  ]

All-trivial : (xs : List ℕ) → All (λ _. Unit {0}) xs
All-trivial [] = tt
All-trivial (x ∷ xs) = (tt, All-trivial xs)

pub stuffed-NonZero : (xs : List ℕ) → All NonZero (stuffed [] xs)
stuffed-NonZero xs =
    stuffed-All NonZero (λ _. Unit {0}) (λ n h k. omega arith) (λ x e q. ground arith) [] xs
      (omega arith) tt (All-trivial xs)

-- The frame of bytes is a body of bytes other than zero with one zero behind it.
pub cobs_encode_frame :
    (xs : List ℕ)
    → All IsByte xs
    → (body : List ℕ) × (cobs_encode xs ≡ body ++ 0 ∷ []) × All NonZero body × All IsByte body
cobs_encode_frame xs h = (
  stuffed [] xs,
  cobs_encode-stuffed xs,
  stuffed-NonZero xs,
  stuffed-All IsByte IsByte (λ n a b. omega arith) (λ x e q. q) [] xs (omega arith) tt h,
)

length-stuffed :
    (block xs : List ℕ)
    → length block < 254
    → (254 * length (stuffed block xs) ≤ 255 * (length xs + length block) + 254)
      × (length xs + length block + 1 ≤ length (stuffed block xs))
length-stuffed block [] h = unfold stuffed in omega arith
length-stuffed block (x ∷ xs) h = elim (Bool-cases (x == 0)) [
  | inl e ↦
      rw (stuffed-zero block xs x e)
        (omega (arith, length-append block (stuffed [] xs), length-stuffed [] xs (omega arith)))
  | inr e ↦
      let len = length-append block (x ∷ []) in
      elim (Bool-cases (length block == 253)) [
        | inl f ↦
            let full : length block ≡ 253 = ground arith in
            rw (stuffed-full block xs x e f) (
              omega (
                arith,
                full,
                len,
                length-append (block ++ x ∷ []) (stuffed [] xs),
                length-stuffed [] xs (omega arith),
              ))
        | inr f ↦
            let room : length (block ++ x ∷ []) < 254 = ground (arith, len) in
            rw (stuffed-room block xs x e f)
              (omega (arith, len, length-stuffed (block ++ x ∷ []) xs room))
      ]
]

-- A frame is at least two bytes longer than its data, and at most two bytes and one more for each
-- 254 bytes of data.
pub length-cobs_encode :
    (xs : List ℕ)
    → (length xs + 2 ≤ length (cobs_encode xs))
      × (length (cobs_encode xs) ≤ length xs + length xs / 254 + 2)
length-cobs_encode xs =
    let body = stuffed [] xs in
    rw (cobs_encode-stuffed xs)
      (omega (arith, length-append body (0 ∷ []), length-stuffed [] xs (omega arith)))

last_nonzero : (x : ℕ) (xs : List ℕ) → All NonZero (x ∷ xs) → get_or (x ∷ xs) (length xs) 0 ≢ 0
last_nonzero x [] h = h.0
last_nonzero x (y ∷ ys) h = last_nonzero y ys h.1

strip_end_kept : (xs : List ℕ) → All NonZero xs → strip_end xs ≡ xs
unfolding strip_end
strip_end_kept [] h = refl
strip_end_kept (x ∷ xs) h =
    let len : suc (length xs) - 1 ≡ length xs = omega arith in
    let kept : (get_or (x ∷ xs) (length xs) 0 == 0) ≡ false = ground (arith, last_nonzero x xs h) in
    rw (len, kept)

-- A body decodes without its closing zero too.
pub cobs_decode-stuffed : (xs : List ℕ) → cobs_decode (stuffed [] xs) ≡ xs
cobs_decode-stuffed xs =
    let body = stuffed [] xs in
    let (c, rest, e) = stuffed_head [] xs in
    rw
      (
        cobs_decode-strip_end body (omega (arith, ap length e)),
        strip_end_kept body (stuffed-NonZero xs),
        decode_loop-stuffed (length body) [] xs [] (omega arith) (omega arith),
      )
      (unfold or_empty in refl)

length-copy_block :
    (n : ℕ) (buf ret : List ℕ)
    → length (copy_block n buf ret).0 + length (copy_block n buf ret).1 ≡ length buf + length ret
unfolding copy_block
length-copy_block zero buf ret = refl
length-copy_block (suc n) [] ret = refl
length-copy_block (suc n) (x ∷ buf) ret =
    omega (arith, length-copy_block n buf (ret ++ x ∷ []), length-append ret (x ∷ []))

copy_block-le : (n : ℕ) (buf ret : List ℕ) → length (copy_block n buf ret).0 ≤ length buf
unfolding copy_block
copy_block-le zero buf ret = omega arith
copy_block-le (suc n) [] ret = omega arith
copy_block-le (suc n) (x ∷ buf) ret = omega (arith, copy_block-le n buf (ret ++ x ∷ []))

-- The loop ends within its fuel, and adds no more than it reads.
decode_loop_total :
    (fuel : ℕ) (buf ret : List ℕ)
    → length buf ≤ fuel
    → (out : List ℕ) × (decode_loop fuel buf ret ≡ some out)
      × (length out ≤ length buf + length ret)
unfolding decode_loop
decode_loop_total fuel [] ret h = (ret, refl, omega arith)
decode_loop_total zero (code ∷ buf) ret h = absurd (omega arith)
decode_loop_total (suc fuel) (code ∷ buf) ret h =
    let rest = (copy_block (code - 1) buf ret).0 in
    let out = (copy_block (code - 1) buf ret).1 in
    let out' = if ltb code 0xFF && non_empty rest then out ++ 0 ∷ [] else out in
    let len : length out' ≤ length out + 1 = ground (arith, length-append out (0 ∷ [])) in
    let fits = copy_block-le (code - 1) buf ret in
    let sum = length-copy_block (code - 1) buf ret in
    let (res, e, bound) = decode_loop_total fuel rest out' (omega arith) in (res, e, omega arith)

strip_end-le : (buf : List ℕ) → length (strip_end buf) ≤ length buf
unfolding strip_end
strip_end-le buf = ground (arith, length-take (length buf - 1) buf)

-- On any input but the empty one, well formed or not, the loop of `cobs_decode` ends by its own
-- test before its fuel does, `cobs_decode` returns what it collected, and that is no longer than
-- the input.
pub cobs_decode_total :
    (x : ℕ) (xs : List ℕ)
    → (decode_loop (length (strip_end (x ∷ xs))) (strip_end (x ∷ xs)) []
        ≡ some (cobs_decode (x ∷ xs)))
      × (length (cobs_decode (x ∷ xs)) ≤ length (x ∷ xs))
cobs_decode_total x xs =
    let buf = strip_end (x ∷ xs) in
    let (out, e, bound) = decode_loop_total (length buf) buf [] (omega arith) in
    let result : cobs_decode (x ∷ xs) ≡ out =
      cobs_decode-strip_end (x ∷ xs) (omega arith) ∙ ap or_empty e ∙ unfold or_empty in refl in
    rw result (e, omega (arith, strip_end-le (x ∷ xs)))
