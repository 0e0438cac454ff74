-- ===== src/ByteStream/Total.antt =====
-- Every request over a byte stream returns.
use comsrv.Base.{
  ℕ, zero, suc, ◌+◌, ◌<◌, ◌++◌, List, [], ◌∷◌, Bool, inl, inr, arith, ◌==◌, ◌||◌, ltb, Bool-cases,
}
use comsrv.Stream.{
  Stream, read_exact as read_bytes, read_all as read_everything, write_all, Outcome, ok, err, hangs,
}
use comsrv.Stream.Laws.{available, read_u8_cases}
use comsrv.Stream.Total.{
  Settles, IsTotal, bind-IsTotal, if-IsTotal, pure-IsTotal, raise-IsTotal, read_exact-IsTotal,
  write_all-IsTotal, read_all-IsTotal,
}
use comsrv.Cobs.{cobs_encode, cobs_decode}
use comsrv.Protocol.Error.{argument_error, protocol_error}
use comsrv.ModBus.Handle.{handle as handle_mod_bus}
use comsrv.ModBus.Total.{handle-IsTotal as mod_bus-IsTotal}
use comsrv.ByteStream.{
  ByteStreamRequest, done, bytes, string, ByteStreamResponse, connect, disconnect, write,
  read_to_term, read_exact, read_all, cobs_write, cobs_read, cobs_query, write_line, read_line,
  query_line, mod_bus, utf8_char, check_term, read_until, read_to_term_loop, skip_zeros, read_frame,
  ignore_error, query_frame, from_utf8, handle,
}

-- Where more rounds are allowed than bytes can still be read.
read_until-Settles :
    (fuel term : ℕ) (ret : List ℕ) (s : Stream)
    → available s < fuel
    → Settles (read_until fuel term ret s)
unfolding read_until
read_until-Settles zero term ret s h = absurd (omega arith)
read_until-Settles (suc fuel) term ret s h = elim (read_u8_cases s) [
  | inl (e, failed) ↦ rw failed tt
  | inr (b, s', got, less) ↦ elim (Bool-cases (b == term)) [
    | inl t ↦ rw (got, t) tt
    | inr t ↦ rw (got, t) (read_until-Settles fuel term (ret ++ b ∷ []) s' (omega arith))
  ]
]

skip_zeros-Settles : (fuel : ℕ) (s : Stream) → available s < fuel → Settles (skip_zeros fuel s)
unfolding skip_zeros
skip_zeros-Settles zero s h = absurd (omega arith)
skip_zeros-Settles (suc fuel) s h = elim (read_u8_cases s) [
  | inl (e, failed) ↦ rw failed tt
  | inr (b, s', got, less) ↦ elim (Bool-cases (b == 0)) [
    | inl t ↦ rw (got, t) (skip_zeros-Settles fuel s' (omega arith))
    | inr t ↦ rw (got, t) tt
  ]
]

read_to_term_loop-IsTotal : (term : ℕ) → IsTotal (read_to_term_loop term)
unfolding read_to_term_loop
read_to_term_loop-IsTotal term = record {
  settles = λ s. read_until-Settles (available s + 1) term [] s (omega arith);
}

read_frame-IsTotal : IsTotal read_frame
unfolding read_frame
read_frame-IsTotal =
    bind-IsTotal (λ s. skip_zeros (available s + 1) s) _
      (record { settles = λ s. skip_zeros-Settles (available s + 1) s (omega arith) })
      (λ first.
        bind-IsTotal (λ s. read_until (available s + 1) 0 (first ∷ []) s) _
          (record {
            settles = λ s. read_until-Settles (available s + 1) 0 (first ∷ []) s (omega arith);
          })
          (λ body. pure-IsTotal (cobs_decode (body ++ 0 ∷ []))))

ignore_error-Settles : (x : Outcome (List ℕ) × Stream) → Settles x → Settles (ignore_error x)
unfolding ignore_error
ignore_error-Settles (ok a, s) h = tt
ignore_error-Settles (err e, s) h = tt
ignore_error-Settles (hangs, s) h = h

query_frame-IsTotal : (request : List ℕ) → IsTotal (query_frame request)
unfolding query_frame
query_frame-IsTotal request =
    bind-IsTotal (λ s. ignore_error (read_everything s)) _
      (record {
        settles = λ s. ignore_error-Settles (read_everything s) (read_all-IsTotal.settles s);
      })
      (λ u.
        bind-IsTotal (write_all (cobs_encode request)) _ (write_all-IsTotal (cobs_encode request))
          (λ v. read_frame-IsTotal))

check_term-IsTotal : (term : ℕ) → IsTotal (check_term term)
unfolding check_term
check_term-IsTotal term =
    if-IsTotal (term == 0 || ltb 128 term) (raise-IsTotal argument_error) (pure-IsTotal tt)

module _ (is_utf8 : List ℕ → Bool) (transaction_id : ℕ) where
  from_utf8-IsTotal : (text : List ℕ) → IsTotal (from_utf8 is_utf8 transaction_id text)
  unfolding from_utf8
  from_utf8-IsTotal text =
      if-IsTotal (is_utf8 text) (pure-IsTotal (string text)) (raise-IsTotal protocol_error)

  handle-IsTotal : (req : ByteStreamRequest) → IsTotal (handle is_utf8 transaction_id req)
  unfolding handle
  handle-IsTotal connect = pure-IsTotal done
  handle-IsTotal disconnect = pure-IsTotal done
  handle-IsTotal (write payload) =
      bind-IsTotal (write_all payload) _ (write_all-IsTotal payload) (λ u. pure-IsTotal done)
  handle-IsTotal (read_to_term term) =
      bind-IsTotal (read_to_term_loop term) _ (read_to_term_loop-IsTotal term)
        (λ line. pure-IsTotal (bytes line))
  handle-IsTotal (read_exact count) =
      bind-IsTotal (read_bytes count) _ (read_exact-IsTotal count)
        (λ read. pure-IsTotal (bytes read))
  handle-IsTotal read_all =
      bind-IsTotal read_everything _ read_all-IsTotal (λ read. pure-IsTotal (bytes read))
  handle-IsTotal (cobs_write payload) =
      bind-IsTotal (write_all (cobs_encode payload)) _ (write_all-IsTotal (cobs_encode payload))
        (λ u. pure-IsTotal done)
  handle-IsTotal cobs_read =
      bind-IsTotal read_frame _ read_frame-IsTotal (λ read. pure-IsTotal (bytes read))
  handle-IsTotal (cobs_query payload) = bind-IsTotal read_everything _ read_all-IsTotal (λ u.
      bind-IsTotal (query_frame payload) _ (query_frame-IsTotal payload)
        (λ read. pure-IsTotal (bytes read)))
  handle-IsTotal (write_line line term) =
      bind-IsTotal (check_term term) _ (check_term-IsTotal term) (λ u.
        bind-IsTotal (write_all (line ++ utf8_char term)) _
          (write_all-IsTotal (line ++ utf8_char term)) (λ v. pure-IsTotal done))
  handle-IsTotal (read_line term) = bind-IsTotal (check_term term) _ (check_term-IsTotal term) (λ u.
      bind-IsTotal (read_to_term_loop term) _ (read_to_term_loop-IsTotal term)
        (λ line. from_utf8-IsTotal line))
  handle-IsTotal (query_line line term) = bind-IsTotal read_everything _ read_all-IsTotal (λ read.
      bind-IsTotal (check_term term) _ (check_term-IsTotal term) (λ u.
        bind-IsTotal (write_all (line ++ utf8_char term)) _
          (write_all-IsTotal (line ++ utf8_char term))
          (λ v.
            bind-IsTotal (read_to_term_loop term) _ (read_to_term_loop-IsTotal term)
              (λ reply. from_utf8-IsTotal reply))))
  handle-IsTotal (mod_bus station_address protocol request) =
      bind-IsTotal (handle_mod_bus transaction_id station_address protocol request) _
        (mod_bus-IsTotal transaction_id station_address protocol request)
        (λ response. pure-IsTotal (ByteStreamResponse.mod_bus response))

  -- Every request over a byte stream returns an answer or an error, on any connection: one that
  -- waits, that is closed or broken, with any bytes. No loop runs out of its fuel.
  pub handle-Settles :
      (req : ByteStreamRequest) (s : Stream) → Settles (handle is_utf8 transaction_id req s)
  handle-Settles req s = (handle-IsTotal req).settles s
