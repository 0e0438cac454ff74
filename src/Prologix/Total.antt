-- ===== src/Prologix/Total.antt =====
-- Every request to a Prologix controller returns.
use comsrv.Base.{
  ℕ, zero, suc, ◌+◌, ◌<◌, ◌==◌, ◌++◌, List, [], ◌∷◌, Bool, Option, none, some, inl, inr, arith,
  Bool-cases, length,
}
use comsrv.Protocol.Error.{ErrorKind, argument_error, protocol_error}
use comsrv.Protocol.Scpi.{
  ScpiRequest, ScpiResponse, done, string, query_string, query_binary, read_raw,
}
use comsrv.Protocol.Scpi
use comsrv.Stream.{Stream, read_all as read_everything}
use comsrv.Stream.Laws.{available, read_u8_cases}
use comsrv.Stream.Total.{
  Settles, IsTotal, bind-IsTotal, if-IsTotal, pure-IsTotal, raise-IsTotal, read_all-IsTotal,
}
use comsrv.Prologix.{
  savecfg_text, auto_text, eos_text, read_text, addr_set, to_line, write_part, write, init_prologix,
  write_prologix, read_reply, decoded, read_prologix, handle_scpi, handle_prologix_request,
}

module _ (is_utf8 : List ℕ → Bool) (late : ℕ → Bool) (room : List ℕ → Stream → ℕ) where
  write_part-Settles :
      (x : Option ErrorKind) (msg : List ℕ) (s : Stream)
      → Settles (write_part is_utf8 late room x msg s)
  unfolding write_part
  write_part-Settles none msg s = tt
  write_part-Settles (some kind) msg s = tt

  write-IsTotal : (msg : List ℕ) → IsTotal (write is_utf8 late room msg)
  unfolding write
  write-IsTotal msg = record { settles = λ s. write_part-Settles s.write_error msg s }

  pub init_prologix-IsTotal : IsTotal (init_prologix is_utf8 late room)
  unfolding init_prologix
  init_prologix-IsTotal =
      bind-IsTotal (write is_utf8 late room savecfg_text) _ (write-IsTotal savecfg_text) (λ u.
        bind-IsTotal (write is_utf8 late room auto_text) _ (write-IsTotal auto_text)
          (λ v. write-IsTotal eos_text))

  read_reply-Settles :
      (fuel : ℕ) (ret : List ℕ) (s : Stream)
      → available s < fuel
      → Settles (read_reply is_utf8 late room fuel ret s)
  unfolding read_reply
  read_reply-Settles zero ret s h = absurd (omega arith)
  read_reply-Settles (suc fuel) ret s h = elim (read_u8_cases s) [
    | inl (e, failed) ↦ rw failed tt
    | inr (b, s', got, less) ↦ elim (Bool-cases (b == 10)) [
      | inl t ↦ rw (got, t) tt
      | inr t ↦ elim (Bool-cases (late (length ret + 1))) [
        | inl l ↦ rw (got, t, l) tt
        | inr l ↦ rw (got, t, l) (read_reply-Settles fuel (ret ++ (b ∷ [])) s' (omega arith))
      ]
    ]
  ]

  read_prologix-IsTotal : IsTotal (read_prologix is_utf8 late room)
  unfolding read_prologix decoded
  read_prologix-IsTotal =
      bind-IsTotal (λ s. read_reply is_utf8 late room (available s + 1) [] s) _
        (record { settles = λ s. read_reply-Settles (available s + 1) [] s (omega arith) })
        (λ ret. if-IsTotal (is_utf8 ret) (pure-IsTotal ret) (raise-IsTotal protocol_error))

  write_prologix-IsTotal : (msg : List ℕ) → IsTotal (write_prologix is_utf8 late room msg)
  unfolding write_prologix
  write_prologix-IsTotal msg = write-IsTotal (to_line msg)

  handle_scpi-IsTotal : (req : ScpiRequest) → IsTotal (handle_scpi is_utf8 late room req)
  unfolding handle_scpi
  handle_scpi-IsTotal (Scpi.write x) =
      bind-IsTotal (write_prologix is_utf8 late room x) _ (write_prologix-IsTotal x)
        (λ u. pure-IsTotal done)
  handle_scpi-IsTotal (query_string x) =
      bind-IsTotal (write_prologix is_utf8 late room x) _ (write_prologix-IsTotal x) (λ u.
        bind-IsTotal (write is_utf8 late room read_text) _ (write-IsTotal read_text) (λ v.
          bind-IsTotal (read_prologix is_utf8 late room) _ read_prologix-IsTotal
            (λ reply. pure-IsTotal (string reply))))
  handle_scpi-IsTotal (query_binary x) = raise-IsTotal argument_error
  handle_scpi-IsTotal read_raw = raise-IsTotal argument_error

  pub handle_prologix_request-IsTotal :
      (addr : ℕ) (req : ScpiRequest) → IsTotal (handle_prologix_request is_utf8 late room addr req)
  unfolding handle_prologix_request
  handle_prologix_request-IsTotal addr req =
      bind-IsTotal read_everything _ read_all-IsTotal (λ read.
        bind-IsTotal (write is_utf8 late room (addr_set addr)) _ (write-IsTotal (addr_set addr))
          (λ u. handle_scpi-IsTotal req))
