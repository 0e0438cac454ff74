-- ===== src/Examples/Frames.antt =====
-- COBS frames and the streams that carry them.
use comsrv.Base.{ℕ, ◌≤◌, ◌≡◌, List, [], ◌∷◌, ◌++◌, some, length, arith}
use comsrv.Cobs.{cobs_encode, cobs_decode, decode_loop, strip_end}
use comsrv.Cobs.RoundTrip.{cobs_decode-cobs_encode}
use comsrv.Cobs.Frame.{cobs_decode_total}
use comsrv.Cobs.Streaming.{new, frames}
use comsrv.Cobs.Streaming.Laws.{encode_all, short_enough, new-IsConsistent, frames_resync}

abbrev with_zeros : List ℕ
with_zeros = 0 ∷ 7 ∷ 0 ∷ 0 ∷ 9 ∷ []

abbrev two_messages : List (List ℕ)
two_messages = with_zeros ∷ (1 ∷ []) ∷ []

cobs_decode-cobs_encode_example : cobs_decode (cobs_encode with_zeros) ≡ with_zeros
cobs_decode-cobs_encode_example = cobs_decode-cobs_encode with_zeros

cobs_decode_total_example :
    (decode_loop (length (strip_end (9 ∷ 1 ∷ []))) (strip_end (9 ∷ 1 ∷ [])) []
      ≡ some (cobs_decode (9 ∷ 1 ∷ [])))
    × (length (cobs_decode (9 ∷ 1 ∷ [])) ≤ 2)
cobs_decode_total_example = cobs_decode_total 9 (1 ∷ [])

frames_resync_example :
    (lost_one : List (List ℕ)) × (length lost_one ≤ 1)
    × (frames (new 4) ((3 ∷ 8 ∷ []) ++ 0 ∷ encode_all two_messages)
        ≡ (new (new 4).max_length, lost_one ++ short_enough (new 4).max_length two_messages))
frames_resync_example =
    frames_resync (new 4) (3 ∷ 8 ∷ []) two_messages (new-IsConsistent 4)
      ((λ e. omega (arith, e)), ((λ e. omega (arith, e)), tt))
