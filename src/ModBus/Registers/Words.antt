-- ===== src/ModBus/Registers/Words.antt =====
-- The registers of 16 bits: what `ReadU16Registers` reads is what `WriteRegisters` writes.
use comsrv.Base.{
  ℕ, ◌*◌, ◌/◌, ◌%◌, ◌≡◌, refl, sym, List, [], ◌∷◌, ◌++◌, length, take, take-append, All, IsU16,
  arith,
}
use comsrv.Base.Chunks.{chunks, chunks-cons}
use comsrv.Protocol.Error.{ok}
use comsrv.ModBus.Registers.{from_be_bytes, ReadU16Registers, words, read_u16, words_bytes}

pub length-words_bytes : (ws : List ℕ) → length (words_bytes ws) ≡ 2 * length ws
unfolding words_bytes
length-words_bytes [] = refl
length-words_bytes (w ∷ ws) = ground (arith, length-words_bytes ws)

words-words_bytes :
    (ws : List ℕ) → All IsU16 ws → words (take (length ws) (chunks 2 (words_bytes ws))) ≡ ws
unfolding words words_bytes
words-words_bytes [] h = refl
words-words_bytes (w ∷ ws) (hw, h) =
    let e : from_be_bytes (w / 256 % 256) (w % 256) ≡ w = omega arith in
    rw (chunks-cons 1 (w / 256 % 256) (w % 256 ∷ words_bytes ws), words-words_bytes ws h, e)

-- From the big endian bytes of as many 16 bit words as were asked for, with any bytes behind
-- them, `ReadU16Registers::parse_frame` returns exactly these words.
pub parse_frame-words_bytes :
    (r : ReadU16Registers) (ws : List ℕ) (rest : List ℕ)
    → length ws ≡ r.cnt
    → All IsU16 ws
    → (read_u16 r).parse_frame (words_bytes ws ++ rest) ≡ ok ws
unfolding read_u16
parse_frame-words_bytes r ws rest e h =
    let taken : take (2 * r.cnt) (words_bytes ws ++ rest) ≡ words_bytes ws =
      take-append (2 * r.cnt) (words_bytes ws) rest (omega (arith, length-words_bytes ws)) in
    rw (taken, sym e, words-words_bytes ws h)
