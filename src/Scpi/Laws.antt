-- ===== src/Scpi/Laws.antt =====
-- What `parse_binary_header` finds.
use comsrv.Base.{
  ℕ, suc, ◌+◌, ◌^◌, ◌≤◌, ◌<◌, ◌≡◌, ◌≢◌, refl, sym, ap, ◌∙◌, true, false, List, [], ◌∷◌, ◌++◌,
  Option, none, some, All, append_assoc, length, length-append, get_or, drop, take-append,
  drop-append, ltb, ◌==◌, if◌then◌else◌, arith,
}
use comsrv.Protocol.Error.{Result, ok, err, protocol_error, ◌>>=◌}
use comsrv.Scpi.{
  one_later, position, is_digit, parse_digits, fits_usize, parse_unsigned, parse_usize,
  parse_block_length, check_length, parse_length, parse_at, parse_binary_header,
}

position-append :
    (b : ℕ) (before rest : List ℕ)
    → All (λ x. x ≢ b) before
    → position b (before ++ b ∷ rest) ≡ some (length before)
unfolding position one_later
position-append b [] rest h = ground arith
position-append b (x ∷ before) rest (hx, h) =
    let other : (x == b) ≡ false = ground arith in
    rw (other, position-append b before rest h) (ground arith)

get_or-append :
    (before rest : List ℕ) (x d : ℕ) → get_or (before ++ 35 ∷ x ∷ rest) (length before + 1) d ≡ x
get_or-append [] rest x d = refl
get_or-append (y ∷ before) rest x d =
    let e : length (y ∷ before) + 1 ≡ suc (length before + 1) = omega arith in
    rw e (get_or-append before rest x d)

one_digit : (n : ℕ) → n < 10 → parse_usize ((48 + n) ∷ []) ≡ ok n
unfolding parse_usize parse_unsigned parse_digits fits_usize
one_digit n h = ground arith

many_digits :
    (ds : List ℕ) (n : ℕ)
    → 1 ≤ length ds
    → All (λ x. is_digit x ≡ true) ds
    → parse_digits 0 ds ≡ some n
    → n < 2 ^ 64
    → parse_usize ds ≡ ok n
unfolding parse_usize parse_unsigned fits_usize
many_digits [] n h a e k = absurd (omega arith)
many_digits (x ∷ ds) n h (hx, a) e k =
    let no_sign : (x == 43) ≡ false = ground arith in rw (no_sign, e) (ground arith)

drop-header :
    (before rest : List ℕ) (x : ℕ) → drop (length before + 2) (before ++ 35 ∷ x ∷ rest) ≡ rest
drop-header before rest x =
    ap (drop (length before + 2)) (sym (append_assoc before (35 ∷ x ∷ []) rest))
    ∙ drop-append (length before + 2) (before ++ 35 ∷ x ∷ []) rest
        (omega (arith, length-append before (35 ∷ x ∷ [])))

block_length :
    (before ds rest : List ℕ) (x n : ℕ)
    → 1 ≤ length ds
    → All (λ c. is_digit c ≡ true) ds
    → parse_digits 0 ds ≡ some n
    → n < 2 ^ 64
    → parse_block_length (before ++ 35 ∷ x ∷ (ds ++ rest)) (length before) (length ds) ≡ ok n
unfolding parse_block_length
block_length before ds rest x n h a e k =
    let long : ltb 0 (length ds) ≡ true = ground arith in
    rw (
      long,
      drop-header before (ds ++ rest) x,
      take-append (length ds) ds rest refl,
      many_digits ds n h a e k,
    )

-- In bytes that begin with at most 25 bytes other than `#`, then `#`, one digit for the number of
-- digits, and 1 to 9 decimal digits for the length of the payload (below 2^64) that stands behind
-- them, `parse_binary_header` finds where the payload begins and its length, whatever follows it.
pub parse_binary_header-block :
    (before ds payload rest : List ℕ)
    → All (λ c. c ≢ 35) before
    → length before ≤ 25
    → 1 ≤ length ds
    → length ds ≤ 9
    → All (λ c. is_digit c ≡ true) ds
    → parse_digits 0 ds ≡ some (length payload)
    → length payload < 2 ^ 64
    → parse_binary_header (before ++ 35 ∷ (48 + length ds) ∷ (ds ++ (payload ++ rest)))
      ≡ ok (length before + 2 + length ds, length payload)
unfolding parse_binary_header parse_at parse_length check_length
parse_binary_header-block before ds payload rest hb kb h k a e kp =
    let tail = ds ++ (payload ++ rest) in
    let rx = before ++ 35 ∷ (48 + length ds) ∷ tail in
    let total = length-append before (35 ∷ (48 + length ds) ∷ tail) in
    let parts = length-append ds (payload ++ rest) in
    let parts' = length-append payload rest in
    let near : ltb 25 (length before) ≡ false = ground arith in
    let has_digit : ltb (length rx) (length before + 2) ≡ false = ground (arith, total) in
    let has_digits : ltb (length rx) (length before + 2 + length ds) ≡ false =
      ground (arith, total, parts) in
    let has_block : ltb (length rx) (length before + 2 + length ds + length payload) ≡ false =
      ground (arith, total, parts, parts') in
    rw (
      position-append 35 before ((48 + length ds) ∷ tail) hb,
      near,
      has_digit,
      get_or-append before tail (48 + length ds) 0,
      one_digit (length ds) (omega arith),
      has_digits,
      block_length before ds (payload ++ rest) (48 + length ds) (length payload) h a e kp,
      has_block,
    )

-- The block lies within the bytes.
check_length_bounds :
    (rx : List ℕ) (o n offset data_length : ℕ)
    → check_length rx o n ≡ ok (offset, data_length)
    → (offset ≡ o) × (o + data_length ≤ length rx)
unfolding check_length
check_length_bounds rx o n offset data_length e = ground arith

parse_length_bounds :
    (rx : List ℕ) (begin n offset data_length : ℕ)
    → parse_length rx begin n ≡ ok (offset, data_length)
    → (begin + 2 ≤ offset) × (offset + data_length ≤ length rx)
unfolding parse_length
parse_length_bounds rx begin n offset data_length e = go (parse_block_length rx begin n) e
  where
    go :
        (r : Result ℕ)
        → (if ltb (length rx) (begin + 2 + n)
            then err protocol_error
            else (r >>= check_length rx (begin + 2 + n)))
          ≡ ok (offset, data_length)
        → (begin + 2 ≤ offset) × (offset + data_length ≤ length rx)
    go (ok m) e = ground (arith, check_length_bounds rx (begin + 2 + n) m offset data_length)
    go (err f) e = absurd (ground arith)

parse_at_bounds :
    (rx : List ℕ) (found : Option ℕ) (offset data_length : ℕ)
    → parse_at rx found ≡ ok (offset, data_length)
    → (2 ≤ offset) × (offset + data_length ≤ length rx)
unfolding parse_at
parse_at_bounds rx none offset data_length e = absurd (ground arith)
parse_at_bounds rx (some begin) offset data_length e =
    go (if ltb (length rx) (begin + 2) then ok 0 else parse_usize (get_or rx (begin + 1) 0 ∷ [])) e
  where
    go :
        (r : Result ℕ)
        → (if ltb 25 begin then err protocol_error else (r >>= parse_length rx begin))
          ≡ ok (offset, data_length)
        → (2 ≤ offset) × (offset + data_length ≤ length rx)
    go (ok n) e = ground (arith, parse_length_bounds rx begin n offset data_length)
    go (err f) e = absurd (ground arith)

-- The block that `parse_binary_header` finds begins at the third byte or later and lies within
-- the bytes, so the slice of it does not panic.
pub parse_binary_header_bounds :
    (rx : List ℕ) (offset data_length : ℕ)
    → parse_binary_header rx ≡ ok (offset, data_length)
    → (2 ≤ offset) × (offset + data_length ≤ length rx)
unfolding parse_binary_header
parse_binary_header_bounds rx offset data_length e =
    parse_at_bounds rx (position 35 rx) offset data_length e
