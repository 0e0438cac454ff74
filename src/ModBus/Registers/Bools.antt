-- ===== src/ModBus/Registers/Bools.antt =====
-- The coils: how `WriteCoils` packs them and how `ReadBoolRegisters` unpacks them.
use comsrv.Base.{
  ℕ, zero, suc, ◌+◌, ◌-◌, ◌*◌, ◌/◌, ◌^◌, ◌≤◌, ◌<◌, ◌≡◌, ◌≢◌, refl, ap, sym, subst, ◌∙◌, Bool, true,
  false, List, [], ◌∷◌, ◌++◌, append_assoc, append-nil, length, length-append, length-take,
  length-drop, take, drop, take-append, take-take, take-beyond, bit_and, bit_or, ◌==◌, leb,
  Bool-cases, inl, inr, if◌then◌else◌, arith,
}
use native.Mathlib.Nat.{pow-suc, mul_assoc}
use comsrv.Base.Bits.{bit_and_mask, bit_or_fields}
use comsrv.Base.Chunks.{chunks, chunks-cons, length-chunks}
use comsrv.Protocol.Error.{Result, ok, err}
use comsrv.ModBus.Registers.{
  ReadBoolRegisters, expected_byte_count, push_bits, push_bytes, read_bool, pack_bits, pack_all,
}

-- The number that bits stand for, lowest first.
value : List Bool → ℕ
value [] = 0
value (true ∷ xs) = 1 + 2 * value xs
value (false ∷ xs) = 2 * value xs

distribute : (p v : ℕ) → p * (1 + 2 * v) ≡ p + p * (2 * v)
distribute zero v = omega arith
distribute (suc p) v = omega (arith, distribute p v)

pack_bits-value :
    (k byte : ℕ) (xs : List Bool)
    → byte < 2 ^ k
    → pack_bits byte (2 ^ k) xs ≡ byte + 2 ^ k * value xs
unfolding pack_bits value
pack_bits-value k byte [] h = omega arith
pack_bits-value k byte (true ∷ xs) h =
    let e : 2 * 2 ^ k ≡ 2 ^ suc k = omega (arith, pow-suc 2 k) in
    let o : bit_or byte (2 ^ k) ≡ byte + 2 ^ k = ground (arith, bit_or_fields k 1 byte h) in
    rw (e, o, pack_bits-value (suc k) (byte + 2 ^ k) xs (omega (arith, pow-suc 2 k)), pow-suc 2 k)
      (omega (arith, mul_assoc (2 ^ k) 2 (value xs), distribute (2 ^ k) (value xs)))
pack_bits-value k byte (false ∷ xs) h =
    let e : 2 * 2 ^ k ≡ 2 ^ suc k = omega (arith, pow-suc 2 k) in
    rw (e, pack_bits-value (suc k) byte xs (omega (arith, pow-suc 2 k)), pow-suc 2 k)
      (omega (arith, mul_assoc (2 ^ k) 2 (value xs)))

low_bit_true : (v : ℕ) → (bit_and (1 + 2 * v) 1 == 1) ≡ true
low_bit_true v = ground (arith, bit_and_mask 1 (1 + 2 * v))

low_bit_false : (v : ℕ) → (bit_and (2 * v) 1 == 1) ≡ false
low_bit_false v = ground (arith, bit_and_mask 1 (2 * v))

-- One round of the inner loop, on the value of a list of bits.
push_bits-cons :
    (n limit : ℕ) (b : Bool) (xs : List Bool) (ret : List Bool)
    → push_bits (suc n) limit (value (b ∷ xs)) ret ≡ (
        if length ret + 1 == limit
        then (ret ++ b ∷ [], true)
        else push_bits n limit (value xs) (ret ++ b ∷ []))
unfolding push_bits value
push_bits-cons n limit true xs ret =
    let half : (1 + 2 * value xs) / 2 ^ 1 ≡ value xs = omega arith in
    rw (low_bit_true (value xs), half, length-append ret (true ∷ []))
push_bits-cons n limit false xs ret =
    let half : 2 * value xs / 2 ^ 1 ≡ value xs = omega arith in
    rw (low_bit_false (value xs), half, length-append ret (false ∷ []))

-- A byte that does not reach the limit.
push_bits-inner :
    (limit : ℕ) (xs ret : List Bool)
    → length ret + length xs < limit
    → push_bits (length xs) limit (value xs) ret ≡ (ret ++ xs, false)
unfolding push_bits
push_bits-inner limit [] ret h = rw (append-nil ret)
push_bits-inner limit (b ∷ xs) ret h =
    let no : (length ret + 1 == limit) ≡ false = ground arith in
    let ih = push_bits-inner limit xs (ret ++ b ∷ []) (omega (arith, length-append ret (b ∷ []))) in
    rw (push_bits-cons (length xs) limit b xs ret, no, ih, append_assoc ret (b ∷ []) xs)

-- The byte in which the limit is reached.
push_bits-outer :
    (n limit : ℕ) (b : Bool) (xs ret : List Bool)
    → length xs ≤ n
    → length ret < limit
    → limit ≤ length ret + length xs + 1
    → push_bits (suc n) limit (value (b ∷ xs)) ret
      ≡ (ret ++ take (limit - length ret) (b ∷ xs), true)
push_bits-outer n limit b [] ret hn h k =
    let now : (length ret + 1 == limit) ≡ true = ground arith in
    let one : limit - length ret ≡ 1 = omega arith in rw (push_bits-cons n limit b [] ret, now, one)
push_bits-outer zero limit b (c ∷ xs) ret hn h k = absurd (omega arith)
push_bits-outer (suc n) limit b (c ∷ xs) ret hn h k = elim (Bool-cases (length ret + 1 == limit)) [
  | inl now ↦
      let one : limit - length ret ≡ 1 = ground arith in
      rw (push_bits-cons (suc n) limit b (c ∷ xs) ret, now, one)
  | inr later ↦
      let l = length-append ret (b ∷ []) in
      let ih =
        push_bits-outer n limit c xs (ret ++ b ∷ []) (omega arith) (ground (arith, l))
          (omega (arith, l)) in
      let e : limit - length ret ≡ suc (limit - length (ret ++ b ∷ [])) = ground (arith, l) in
      rw (
        push_bits-cons (suc n) limit b (c ∷ xs) ret,
        later,
        ih,
        e,
        append_assoc ret (b ∷ []) (take (limit - length (ret ++ b ∷ [])) (c ∷ xs)),
      )
]

pack_chunk : (xs : List Bool) → pack_bits 0 1 xs ≡ value xs
pack_chunk xs = pack_bits-value 0 0 xs (omega arith) ∙ omega arith

-- The loop over packed coils stops with the first `limit` of them.
push_bytes-pack_all :
    (fuel limit : ℕ) (coils ret : List Bool)
    → length coils ≤ fuel
    → length ret < limit
    → limit ≤ length ret + length coils
    → push_bytes limit (pack_all (chunks 8 coils)) ret ≡ ret ++ take (limit - length ret) coils
unfolding push_bytes pack_all
push_bytes-pack_all fuel limit [] ret hf h k = absurd (omega arith)
push_bytes-pack_all zero limit (b ∷ xs) ret hf h k = absurd (omega arith)
push_bytes-pack_all (suc fuel) limit (b ∷ xs) ret hf h k =
    let chunk = b ∷ take 7 xs in
    elim (Bool-cases (leb limit (length ret + length chunk))) [
      | inl within ↦
          let here =
            push_bits-outer 7 limit b (take 7 xs) ret (omega (arith, length-take 7 xs)) h
              (ground arith) in
          rw (chunks-cons 7 b xs, pack_chunk chunk, here)
            (ap (◌++◌ ret)
              (take-take (limit - length ret) 8 (b ∷ xs) (ground (arith, length-take 7 xs))))
      | inr beyond ↦
          let eight : length chunk ≡ 8 = ground (arith, length-take 7 xs) in
          let here : push_bits 8 limit (value chunk) ret ≡ (ret ++ chunk, false) =
            subst (λ n. push_bits n limit (value chunk) ret ≡ (ret ++ chunk, false)) eight
              (push_bits-inner limit chunk ret (ground arith)) in
          let l = length-append ret chunk in
          let d = length-drop 7 xs in
          let t = length-take 7 xs in
          let ih =
            push_bytes-pack_all fuel limit (drop 7 xs) (ret ++ chunk) (omega arith) (ground arith)
              (omega arith) in
          let e : limit - length (ret ++ chunk) ≡ limit - length ret - 8 = omega arith in
          rw
            (
              chunks-cons 7 b xs,
              pack_chunk chunk,
              here,
              ih,
              e,
              append_assoc ret chunk (take (limit - length ret - 8) (drop 7 xs)),
            )
            (ap (◌++◌ ret)
              (take-beyond (limit - length ret) 8 (b ∷ xs) (ground arith) (omega arith)))
    ]

length-pack_all : (cs : List (List Bool)) → length (pack_all cs) ≡ length cs
unfolding pack_all
length-pack_all [] = refl
length-pack_all (c ∷ cs) = ap suc (length-pack_all cs)

minus_nothing : (n : ℕ) → n - 0 ≡ n
minus_nothing n = omega arith

push_bytes-packed_take :
    (limit : ℕ) (coils : List Bool)
    → 1 ≤ limit
    → limit ≤ length coils
    → push_bytes limit (pack_all (chunks 8 coils)) [] ≡ take limit coils
push_bytes-packed_take limit coils h k =
    push_bytes-pack_all (length coils) limit coils [] (omega arith) h (omega arith)
    ∙ ap (λ n. take n coils) (minus_nothing limit)

-- The loop that unpacks coils, with their number as its limit, gives back the coils that
-- `WriteCoils` packs eight to a byte, if there is one at least.
pub push_bytes-packed :
    (coils : List Bool)
    → 1 ≤ length coils
    → push_bytes (length coils) (pack_all (chunks 8 coils)) [] ≡ coils
push_bytes-packed coils h =
    push_bytes-packed_take (length coils) coils h (omega arith)
    ∙ ap (take (length coils)) (sym (append-nil coils))
    ∙ take-append (length coils) coils [] refl

-- From a reply that packs as many coils as were asked for, `ReadBoolRegisters::parse_frame`
-- returns as many of the first coils as the reply has bytes for them, whatever bytes follow.
pub parse_frame-packed :
    (r : ReadBoolRegisters) (coils : List Bool) (rest : List ℕ)
    → 1 ≤ r.cnt
    → length coils ≡ r.cnt
    → (read_bool r).parse_frame (pack_all (chunks 8 coils) ++ rest)
      ≡ ok (take (expected_byte_count r) coils)
unfolding read_bool
parse_frame-packed r coils rest h e =
    let bytes = pack_all (chunks 8 coils) in
    let taken : take (expected_byte_count r) (bytes ++ rest) ≡ bytes =
      take-append (expected_byte_count r) bytes rest
        (omega (arith, length-pack_all (chunks 8 coils), length-chunks coils)) in
    rw (taken, push_bytes-packed_take (expected_byte_count r) coils (omega arith) (omega arith))

or_none : Result (List Bool) → List Bool
or_none (ok l) = l
or_none (err e) = []

-- For two coils or more, the reply that packs these coils is never read as these coils:
-- `ReadBoolRegisters::parse_frame` loses some.
pub parse_frame-short :
    (r : ReadBoolRegisters) (coils : List Bool) (rest : List ℕ)
    → 2 ≤ r.cnt
    → length coils ≡ r.cnt
    → (read_bool r).parse_frame (pack_all (chunks 8 coils) ++ rest) ≢ ok coils
unfolding or_none
parse_frame-short r coils rest h e eq =
    let same : length (take (expected_byte_count r) coils) ≡ length coils =
      ap (λ (o : Result (List Bool)). length (or_none o))
        (sym (parse_frame-packed r coils rest (omega arith) e) ∙ eq) in
    omega (arith, length-take (expected_byte_count r) coils)
