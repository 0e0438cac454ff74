-- ===== src/ByteStream/Laws.antt =====
-- Lines and frames that are asked for over a byte stream.
use comsrv.Base.{
  ℕ, zero, suc, ◌+◌, ◌<◌, ◌≡◌, ◌≢◌, inl, inr, refl, sym, ap, ◌∙◌, true, false, List, [], ◌∷◌, ◌++◌,
  All, append-nil, append_assoc, length, length-append, replicate, length-replicate, subst, ◌==◌,
  arith,
}
use comsrv.Protocol.Error.{Error, transport, io, unexpected_eof}
use comsrv.Stream.{Stream, ok, err, hangs, closed, read_u8}
use comsrv.Stream.Laws.{available, read_u8_cases, read_u8-incoming, read_u8_closed}
use comsrv.Cobs.{cobs_encode}
use comsrv.Cobs.Blocks.{cobs_encode-stuffed}
use comsrv.Cobs.RoundTrip.{stuffed_head, cobs_decode-cobs_encode}
use comsrv.Cobs.Frame.{NonZero, stuffed-NonZero}
use comsrv.ByteStream.{read_until, read_to_term_loop, skip_zeros, read_frame}

abbrev pub IsNot : ℕ → ℕ → Type 0
IsNot term b = b ≢ term

abbrev pub left : Stream → List ℕ → Stream
left s rest = record s { incoming = rest }

pub read_until-line :
    (fuel term : ℕ) (line rest ret : List ℕ) (s : Stream)
    → s.pending ≡ []
    → s.incoming ≡ line ++ term ∷ rest
    → All (IsNot term) line
    → length line < fuel
    → read_until fuel term ret s ≡ (ok (ret ++ line), left s rest)
unfolding read_until
read_until-line zero term line rest ret s p e h k = absurd (omega arith)
read_until-line (suc fuel) term [] rest ret s p e h k =
    let found : (term == term) ≡ true = ground arith in
    rw (read_u8-incoming term rest s p e, found, append-nil ret)
read_until-line (suc fuel) term (b ∷ line) rest ret s p e (hb, h) k =
    let other : (b == term) ≡ false = ground arith in
    rw (
      read_u8-incoming b (line ++ term ∷ rest) s p e,
      other,
      read_until-line fuel term line rest (ret ++ b ∷ []) (left s (line ++ term ∷ rest)) p refl h
          (omega arith),
      append_assoc ret (b ∷ []) line,
    )

pub skip_zeros-replicate :
    (fuel k b : ℕ) (rest : List ℕ) (s : Stream)
    → s.pending ≡ []
    → s.incoming ≡ replicate k 0 ++ b ∷ rest
    → b ≢ 0
    → k < fuel
    → skip_zeros fuel s ≡ (ok b, left s rest)
unfolding skip_zeros
skip_zeros-replicate zero k b rest s p e d h = absurd (omega arith)
skip_zeros-replicate (suc fuel) zero b rest s p e d h =
    let other : (b == 0) ≡ false = ground arith in rw (read_u8-incoming b rest s p e, other)
skip_zeros-replicate (suc fuel) (suc k) b rest s p e d h = rw (
  read_u8-incoming 0 (replicate k 0 ++ b ∷ rest) s p e,
  skip_zeros-replicate fuel k b rest (left s (replicate k 0 ++ b ∷ rest)) p refl d (omega arith),
)

-- Where more rounds are allowed than bytes can still be read, the loop that reads up to an end
-- returns: it finds the end or fails, on any connection.
pub read_until_total :
    (fuel term : ℕ) (ret : List ℕ) (s : Stream)
    → available s < fuel
    → (read_until fuel term ret s).0 ≢ hangs
unfolding read_until
read_until_total zero term ret s h = absurd (omega arith)
read_until_total (suc fuel) term ret s h = elim (read_u8_cases s) [
  | inl (e, failed) ↦ rw failed (ground arith)
  | inr (b, s', got, less) ↦
      rw got (ground (arith, read_until_total fuel term (ret ++ b ∷ []) s' (omega arith)))
]

-- A line that is waited for comes without its end, whatever follows it stays.
pub read_to_term_loop-line :
    (term : ℕ) (line rest : List ℕ) (s : Stream)
    → s.pending ≡ []
    → s.incoming ≡ line ++ term ∷ rest
    → All (IsNot term) line
    → read_to_term_loop term s ≡ (ok line, left s rest)
unfolding read_to_term_loop
read_to_term_loop-line term line rest s p e h =
    read_until-line (available s + 1) term line rest [] s p e h
      (omega (arith, ap length e, length-append line (term ∷ rest)))

-- Zeros before a frame are skipped.
pub read_frame-cobs_encode :
    (k : ℕ) (xs rest : List ℕ) (s : Stream)
    → s.pending ≡ []
    → s.incoming ≡ replicate k 0 ++ (cobs_encode xs ++ rest)
    → read_frame s ≡ (ok xs, left s rest)
unfolding read_frame
read_frame-cobs_encode k xs rest s p e =
    let (c, body, shape) = stuffed_head [] xs in
    let whole : cobs_encode xs ≡ c ∷ (body ++ 0 ∷ []) =
      cobs_encode-stuffed xs ∙ ap (λ (l : List ℕ). l ++ 0 ∷ []) shape in
    let (hc, hbody) : All NonZero (c ∷ body) =
      subst (λ l. All NonZero l) shape (stuffed-NonZero xs) in
    let coming : s.incoming ≡ replicate k 0 ++ c ∷ (body ++ 0 ∷ rest) =
      e ∙ ap (λ (l : List ℕ). replicate k 0 ++ (l ++ rest)) whole ∙ simp append_assoc in
    let s1 = left s (body ++ 0 ∷ rest) in
    rw (
      skip_zeros-replicate (available s + 1) k c (body ++ 0 ∷ rest) s p coming hc (
          omega (
            arith,
            ap length coming,
            length-append (replicate k 0) (c ∷ (body ++ 0 ∷ rest)),
            length-replicate {A = ℕ} k 0,
          )),
      read_until-line (available s1 + 1) 0 body rest (c ∷ []) s1 p refl hbody
          (omega (arith, length-append body (0 ∷ rest))),
      sym whole,
      cobs_decode-cobs_encode xs,
    )

read_until_err :
    (fuel term : ℕ) (ret : List ℕ) (e : Error) (s : Stream)
    → 0 < fuel
    → read_u8 s ≡ (err e, s)
    → read_until fuel term ret s ≡ (err e, s)
unfolding read_until
read_until_err zero term ret e s h failed = absurd (omega arith)
read_until_err (suc fuel) term ret e s h failed = rw failed refl

skip_zeros_err :
    (fuel : ℕ) (e : Error) (s : Stream)
    → 0 < fuel
    → read_u8 s ≡ (err e, s)
    → skip_zeros fuel s ≡ (err e, s)
unfolding skip_zeros
skip_zeros_err zero e s h failed = absurd (omega arith)
skip_zeros_err (suc fuel) e s h failed = rw failed refl

-- At the end of a closed connection nothing more is read.
pub read_to_term_loop_closed :
    (term : ℕ) (s : Stream)
    → s.pending ≡ []
    → s.incoming ≡ []
    → s.ending ≡ closed
    → read_to_term_loop term s ≡ (err (transport (io unexpected_eof)), s)
unfolding read_to_term_loop
read_to_term_loop_closed term s p i c =
    read_until_err (available s + 1) term [] (transport (io unexpected_eof)) s (omega arith)
      (read_u8_closed s p i c)

pub read_frame_closed :
    (s : Stream)
    → s.pending ≡ []
    → s.incoming ≡ []
    → s.ending ≡ closed
    → read_frame s ≡ (err (transport (io unexpected_eof)), s)
unfolding read_frame
read_frame_closed s p i c =
    rw
      (skip_zeros_err (available s + 1) (transport (io unexpected_eof)) s (omega arith)
        (read_u8_closed s p i c))
      refl
