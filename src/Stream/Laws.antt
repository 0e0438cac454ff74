-- ===== src/Stream/Laws.antt =====
-- `read_all` and `read_exact` on any stream.
use comsrv.Base.{
  ℕ, zero, suc, ◌+◌, ◌<◌, ◌≡◌, refl, sym, ap, ◌∙◌, ◌⊎◌, inl, inr, List, [], ◌∷◌, ◌++◌, none,
  append-nil, append_assoc, length, length-drop, take, drop, take-append-drop, arith,
}
use comsrv.Protocol.Error.{Result, Error, TransportError, unexpected_eof}
use comsrv.Stream.{
  Ending, silent, closed, broken, Stream, end_error, ok, lift, read_u8, read_exact, write_all,
  write_with, read_from, err, ready, Poll, poll_end, poll_from, poll_read, read_all_loop, read_all,
}

-- No byte can be read now.
abbrev pub Waits : Stream → Type 0
Waits s = poll_end s.incoming s.ending ≡ Poll.pending

abbrev pub drained : Stream → Stream
drained s = record s { pending = [] }

-- What `read_all` returns: the bytes, unless the connection is broken behind them.
abbrev pub read_all_result : List ℕ → Ending → List ℕ → Result (List ℕ)
read_all_result (b ∷ incoming) ending bytes = Result.ok bytes
read_all_result [] silent bytes = Result.ok bytes
read_all_result [] closed bytes = Result.ok bytes
read_all_result [] (broken kind) bytes = Result.err (Error.transport (TransportError.io kind))

-- At the end of a closed connection a read is ready with no byte, until the budget is used up.
loop_closed :
    (budget : ℕ) (ret : List ℕ) (s : Stream)
    → s.incoming ≡ []
    → s.ending ≡ closed
    → read_all_loop budget ret (drained s) ≡ (Result.ok ret, drained s)
unfolding read_all_loop poll_read poll_from
loop_closed zero ret s hi he = refl
loop_closed (suc budget) ret s hi he =
    let polled : poll_end s.incoming s.ending ≡ ready [] = rw (hi, he) refl in
    rw (polled, read_all_loop) (rw (append-nil ret) (loop_closed budget ret s hi he))

loop_drained :
    (budget : ℕ) (ret incoming : List ℕ) (ending : Ending) (s : Stream)
    → s.incoming ≡ incoming
    → s.ending ≡ ending
    → read_all_loop (suc budget) ret (drained s) ≡ (read_all_result incoming ending ret, drained s)
unfolding read_all_loop poll_read poll_from
loop_drained budget ret (b ∷ incoming) ending s hi he = rw (hi, he) refl
loop_drained budget ret [] silent s hi he = rw (hi, he) refl
loop_drained budget ret [] closed s hi he = loop_closed (suc budget) ret s hi he
loop_drained budget ret [] (broken kind) s hi he = rw (hi, he) refl

-- With any budget that is larger than the number of bytes that have arrived, on any connection, the
-- loop returns these bytes, all of them and in order, and takes no others. It fails if the
-- connection is broken behind them.
pub read_all_loop-result :
    (budget : ℕ) (ret bytes : List ℕ) (s : Stream)
    → length bytes < budget
    → read_all_loop budget ret (record s { pending = bytes })
      ≡ (read_all_result s.incoming s.ending (ret ++ bytes), drained s)
unfolding read_all_loop poll_read poll_from
read_all_loop-result zero ret bytes s h = absurd (omega arith)
read_all_loop-result (suc budget) ret [] s h =
    loop_drained budget ret s.incoming s.ending s refl refl
    ∙ ap (λ (l : List ℕ). (read_all_result s.incoming s.ending l, drained s)) (sym (append-nil ret))
read_all_loop-result (suc budget) ret (b ∷ bytes) s h =
    let rest = drop 1000 (b ∷ bytes) in
    read_all_loop-result budget (ret ++ take 1000 (b ∷ bytes)) rest s
      (omega (arith, length-drop 1000 (b ∷ bytes)))
    ∙ ap (λ (l : List ℕ). (read_all_result s.incoming s.ending l, drained s))
        (append_assoc ret (take 1000 (b ∷ bytes)) rest
          ∙ ap (◌++◌ ret) (take-append-drop 1000 (b ∷ bytes)))

pub read_all-result :
    (s : Stream) → read_all s ≡ lift (read_all_result s.incoming s.ending s.pending) (drained s)
unfolding read_all
read_all-result s =
    rw (read_all_loop-result (length s.pending + 1) [] s.pending s (omega arith)) refl

waits_result :
    (incoming bytes : List ℕ) (ending : Ending)
    → poll_end incoming ending ≡ Poll.pending
    → read_all_result incoming ending bytes ≡ Result.ok bytes
waits_result (b ∷ incoming) bytes ending w = refl
waits_result [] bytes silent w = refl
waits_result [] bytes closed w = refl
waits_result [] bytes (broken kind) w = absurd (ground arith)

lift-stream : {A : Type 0} (x : Result A) (s : Stream) → (lift x s).1 ≡ s
lift-stream (Result.ok a) s = refl
lift-stream (Result.err e) s = refl

pub read_all-outgoing : (s : Stream) → (read_all s).1.outgoing ≡ s.outgoing
read_all-outgoing s = rw (read_all-result s) (
    ap (λ (t : Stream). t.outgoing)
      (lift-stream (read_all_result s.incoming s.ending s.pending) (drained s)))

-- On a connection where a read after the bytes that have arrived has to wait, `read_all` returns
-- all bytes that have arrived and takes no others.
pub read_all-Waits : (s : Stream) → Waits s → read_all s ≡ (ok s.pending, drained s)
read_all-Waits s w = rw (read_all-result s, waits_result s.incoming s.pending s.ending w) refl

-- So it does where the peer has closed the connection.
pub read_all_closed :
    (s : Stream) → s.incoming ≡ [] → s.ending ≡ closed → read_all s ≡ (ok s.pending, drained s)
read_all_closed s e c = rw (read_all-result s, e, c) refl

pub read_u8-incoming :
    (b : ℕ) (rest : List ℕ) (s : Stream)
    → s.pending ≡ []
    → s.incoming ≡ b ∷ rest
    → read_u8 s ≡ (ok b, record s { incoming = rest })
unfolding read_u8
read_u8-incoming b rest s p e = rw (p, e)

pub read_u8_closed :
    (s : Stream)
    → s.pending ≡ []
    → s.incoming ≡ []
    → s.ending ≡ closed
    → read_u8 s ≡ (err (Error.transport (TransportError.io unexpected_eof)), s)
unfolding read_u8 read_from end_error
read_u8_closed s p i c = rw (p, i, c) refl

-- Once nothing is pending, bytes come from `incoming`.
pub read_exact-append :
    (bytes rest : List ℕ) (s : Stream)
    → s.pending ≡ []
    → s.incoming ≡ bytes ++ rest
    → read_exact (length bytes) s ≡ (ok bytes, record s { incoming = rest })
unfolding read_exact
read_exact-append [] rest s p e = ground arith
read_exact-append (b ∷ bytes) rest s p e =
    let s' : Stream = record s { incoming = bytes ++ rest } in
    rw (read_u8-incoming b (bytes ++ rest) s p e, read_exact-append bytes rest s' p refl)

pub write_all_none :
    (bytes : List ℕ) (s : Stream)
    → s.write_error ≡ none
    → write_all bytes s ≡ (ok tt, record s { outgoing = s.outgoing ++ bytes })
unfolding write_all write_with
write_all_none bytes s e = rw e

-- The bytes that can still be read.
abbrev pub available : Stream → ℕ
available s = length s.pending + length s.incoming

read_from_cases :
    (p i : List ℕ) (s : Stream)
    → s.pending ≡ p
    → s.incoming ≡ i
    → ((e : Error) × (read_from p i s ≡ (err e, s)))
      ⊎ ((b : ℕ) × (s' : Stream) × (read_from p i s ≡ (ok b, s')) × (available s' < available s))
unfolding read_from
read_from_cases [] [] s hp hi = inl (end_error s.ending, refl)
read_from_cases [] (b ∷ i) s hp hi =
    inr (b, record s { incoming = i }, refl, omega (arith, ap length hi))
read_from_cases (b ∷ p) i s hp hi =
    inr (b, record s { pending = p }, refl, omega (arith, ap length hp))

-- Reading a byte fails, or takes one of those that are left.
pub read_u8_cases :
    (s : Stream)
    → ((e : Error) × (read_u8 s ≡ (err e, s)))
      ⊎ ((b : ℕ) × (s' : Stream) × (read_u8 s ≡ (ok b, s')) × (available s' < available s))
unfolding read_u8
read_u8_cases s = read_from_cases s.pending s.incoming s refl refl

-- One call of `AsyncWriteExt::write` takes all bytes that it is given.
abbrev pub TakesAll : (room : List ℕ → Stream → ℕ) → Type 0
TakesAll room = (bytes : List ℕ) (s : Stream) → room bytes s ≡ length bytes
