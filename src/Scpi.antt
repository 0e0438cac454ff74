-- ===== src/Scpi.antt =====
-- comsrv/src/protocol/scpi.rs: the header of a binary block, `#<n><n digits><bytes>`. Bytes that are
-- not UTF-8 are no digits either, so the two errors are one test here.
pub mod Laws
use comsrv.Base.{
  ℕ, zero, suc, ◌+◌, ◌-◌, ◌*◌, ◌^◌, Bool, List, [], ◌∷◌, Option, none, some, length, get_or, take,
  drop, ltb, leb, ◌==◌, ◌&&◌, if◌then◌else◌,
}
use comsrv.Protocol.Error.{Result, ok, err, protocol_error, ◌>>=◌}

unfoldable pub one_later : Option ℕ → Option ℕ
one_later none = none
one_later (some i) = some (i + 1)

-- `iter().position(|x| *x == b)`
unfoldable pub position : ℕ → List ℕ → Option ℕ
unfolding one_later
position b [] = none
position b (x ∷ xs) = let later = one_later (position b xs) in if x == b then some 0 else later

abbrev pub is_digit : ℕ → Bool
is_digit x = leb 48 x && leb x 57

unfoldable pub parse_digits : ℕ → List ℕ → Option ℕ
parse_digits n [] = some n
parse_digits n (x ∷ xs) =
    let rest = parse_digits (10 * n + (x - 48)) xs in if is_digit x then rest else none

unfoldable pub fits_usize : Option ℕ → Result ℕ
fits_usize none = err protocol_error
fits_usize (some n) = if ltb n (2 ^ 64) then ok n else err protocol_error

unfoldable pub parse_unsigned : List ℕ → Result ℕ
unfolding parse_digits fits_usize
parse_unsigned [] = err protocol_error
parse_unsigned (x ∷ xs) = fits_usize (parse_digits 0 (x ∷ xs))

-- `str::parse::<usize>`: digits, behind one `+` at most.
unfoldable pub parse_usize : List ℕ → Result ℕ
unfolding parse_unsigned
parse_usize [] = err protocol_error
parse_usize (x ∷ xs) = if x == 43 then parse_unsigned xs else parse_unsigned (x ∷ xs)

unfoldable pub parse_block_length : List ℕ → ℕ → ℕ → Result ℕ
unfolding parse_usize
parse_block_length rx begin header_length =
    if ltb 0 header_length then parse_usize (take header_length (drop (begin + 2) rx)) else ok 0

unfoldable pub check_length : List ℕ → ℕ → ℕ → Result (ℕ × ℕ)
check_length rx offset data_length =
    if ltb (length rx) (offset + data_length) then err protocol_error else ok (offset, data_length)

unfoldable pub parse_length : List ℕ → ℕ → ℕ → Result (ℕ × ℕ)
unfolding parse_block_length check_length
parse_length rx begin header_length =
    let offset = begin + 2 + header_length in
    if ltb (length rx) offset
    then err protocol_error
    else (parse_block_length rx begin header_length >>= check_length rx offset)

unfoldable pub parse_at : List ℕ → Option ℕ → Result (ℕ × ℕ)
unfolding parse_length parse_usize
parse_at rx none = err protocol_error
parse_at rx (some begin) =
    if ltb 25 begin
    then err protocol_error
    else ((if ltb (length rx) (begin + 2) then ok 0 else parse_usize (get_or rx (begin + 1) 0 ∷ []))
        >>= parse_length rx begin)

unfoldable pub parse_binary_header : List ℕ → Result (ℕ × ℕ)
unfolding parse_at position
parse_binary_header rx = parse_at rx (position 35 rx)
