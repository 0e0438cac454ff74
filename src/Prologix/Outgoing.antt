-- ===== src/Prologix/Outgoing.antt =====
-- The requests to a Prologix controller keep what was written.
use comsrv.Base.{
  ℕ, zero, suc, ◌+◌, ◌≡◌, refl, Bool, List, [], ◌∷◌, ◌++◌, Option, none, some, take, ◌==◌,
  append_assoc, arith, Bool-cases, inl, inr, ◌⊎◌, ap, sym, append-nil, Option-cases, length,
  if◌then◌else◌,
}
use comsrv.Protocol.Error.{ErrorKind, Error, TransportError, protocol_timeout}
use comsrv.Protocol.Scpi.{
  ScpiRequest, ScpiResponse, done, string, query_string, query_binary, read_raw,
}
use comsrv.Protocol.Scpi
use comsrv.Stream.{Stream, ok, err, Io, pure, ◌>>=◌, ◌>>◌, read_u8, read_all as read_everything}
use comsrv.Stream.Laws.{TakesAll, available, read_all-outgoing}
use comsrv.Stream.Outgoing.{Extends, same-Extends, and_then-Extends, read_u8-outgoing}
use comsrv.Prologix.{
  savecfg_text, auto_text, eos_text, read_text, addr_set, to_line, write_part, write, init_prologix,
  write_prologix, read_reply, decoded, read_prologix, handle_scpi, handle_prologix_request,
}
use comsrv.Prologix.Laws.{written, write_none}

-- What the initialisation writes.
abbrev pub init_text : List ℕ
init_text = savecfg_text ++ (auto_text ++ eos_text)

-- The three lines of the initialisation were written one behind the other.
abbrev pub WasInitialized : Stream → Type 0
WasInitialized s =
    (before : List ℕ) × (after : List ℕ) × (s.outgoing ≡ before ++ (init_text ++ after))

module _ (is_utf8 : List ℕ → Bool) (late : ℕ → Bool) (room : List ℕ → Stream → ℕ) where
  write_part-Extends :
      (x : Option ErrorKind) (msg : List ℕ) (s : Stream)
      → Extends s (write_part is_utf8 late room x msg s).1
  unfolding write_part
  write_part-Extends none msg s = (take (room msg s) msg, refl)
  write_part-Extends (some kind) msg s = same-Extends s s refl

  write-Extends : (msg : List ℕ) (s : Stream) → Extends s (write is_utf8 late room msg s).1
  unfolding write
  write-Extends msg s = write_part-Extends s.write_error msg s

  read_reply-Extends :
      (fuel : ℕ) (ret : List ℕ) (s : Stream) → Extends s (read_reply is_utf8 late room fuel ret s).1
  unfolding read_reply
  read_reply-Extends zero ret s = same-Extends s s refl
  read_reply-Extends (suc fuel) ret s =
      and_then-Extends s (read_u8 s)
        (λ x s'.
          let rest = read_reply is_utf8 late room fuel (ret ++ (x ∷ [])) s' in
          if x == 10
          then (ok ret, s')
          else if late (length ret + 1)
          then (err protocol_timeout, s')
          else rest)
        (same-Extends s (read_u8 s).1 (read_u8-outgoing s))
        (λ x s'. elim (Bool-cases (x == 10)) [
          | inl e ↦ rw e (same-Extends s' s' refl)
          | inr e ↦ elim (Bool-cases (late (length ret + 1))) [
            | inl l ↦ rw (e, l) (same-Extends s' s' refl)
            | inr l ↦ rw (e, l) (read_reply-Extends fuel (ret ++ (x ∷ [])) s')
          ]
        ])

  decoded-Extends : (ret : List ℕ) (s : Stream) → Extends s (decoded is_utf8 late room ret s).1
  unfolding decoded
  decoded-Extends ret s = elim (Bool-cases (is_utf8 ret)) [
    | inl e ↦ rw e (same-Extends s s refl)
    | inr e ↦ rw e (same-Extends s s refl)
  ]

  read_prologix-Extends : (s : Stream) → Extends s (read_prologix is_utf8 late room s).1
  unfolding read_prologix
  read_prologix-Extends s =
      and_then-Extends s (read_reply is_utf8 late room (available s + 1) [] s)
        (decoded is_utf8 late room) (read_reply-Extends (available s + 1) [] s) decoded-Extends

  handle_scpi-Extends :
      (req : ScpiRequest) (s : Stream) → Extends s (handle_scpi is_utf8 late room req s).1
  unfolding handle_scpi write_prologix
  handle_scpi-Extends (Scpi.write x) s =
      and_then-Extends s (write is_utf8 late room (to_line x) s) (λ a. pure done)
        (write-Extends (to_line x) s) (λ a s'. same-Extends s' s' refl)
  handle_scpi-Extends (query_string x) s =
      let reply : Io ScpiResponse = read_prologix is_utf8 late room >>= λ r. pure (string r) in
      let asked : Io ScpiResponse = write is_utf8 late room read_text >> reply in
      and_then-Extends s (write is_utf8 late room (to_line x) s) (λ a. asked)
        (write-Extends (to_line x) s)
        (λ a s1.
          and_then-Extends s1 (write is_utf8 late room read_text s1) (λ b. reply)
            (write-Extends read_text s1)
            (λ b s2.
              and_then-Extends s2 (read_prologix is_utf8 late room s2) (λ r. pure (string r))
                (read_prologix-Extends s2) (λ c s3. same-Extends s3 s3 refl)))
  handle_scpi-Extends (query_binary x) s = same-Extends s s refl
  handle_scpi-Extends read_raw s = same-Extends s s refl

  pub handle_prologix_request-Extends :
      (addr : ℕ) (req : ScpiRequest) (s : Stream)
      → Extends s (handle_prologix_request is_utf8 late room addr req s).1
  unfolding handle_prologix_request
  handle_prologix_request-Extends addr req s =
      let scpi : Io ScpiResponse = handle_scpi is_utf8 late room req in
      let rest : Io ScpiResponse = write is_utf8 late room (addr_set addr) >> scpi in
      and_then-Extends s (read_everything s) (λ a. rest)
        (same-Extends s (read_everything s).1 (read_all-outgoing s))
        (λ a s1.
          and_then-Extends s1 (write is_utf8 late room (addr_set addr) s1) (λ b. scpi)
            (write-Extends (addr_set addr) s1) (λ b s2. handle_scpi-Extends req s2))

  -- An initialisation that is done has written its three lines.
  pub init_prologix-written :
      (s : Stream)
      → TakesAll room
      → s.write_error ≡ none
      → init_prologix is_utf8 late room s ≡ (ok tt, written is_utf8 late room init_text s)
  unfolding init_prologix
  init_prologix-written s all e = rw (
    write_none is_utf8 late room savecfg_text s all e,
    write_none is_utf8 late room auto_text (record s { outgoing = s.outgoing ++ savecfg_text }) all
        e,
    write_none is_utf8 late room eos_text
        (record s { outgoing = (s.outgoing ++ savecfg_text) ++ auto_text }) all e,
    append_assoc (s.outgoing ++ savecfg_text) auto_text eos_text,
    append_assoc s.outgoing savecfg_text (auto_text ++ eos_text),
  )

  write_fails :
      (x : Option ErrorKind) (kind : ErrorKind) (msg : List ℕ) (s : Stream)
      → x ≡ some kind
      → write_part is_utf8 late room x msg s ≡ (err (Error.transport (TransportError.io kind)), s)
  unfolding write_part
  write_fails none kind msg s e = absurd (ground arith)
  write_fails (some k) kind msg s e = ground arith

  -- An initialisation that succeeds has written its lines.
  pub init_prologix-WasInitialized :
      (s : Stream)
      → TakesAll room
      → ((e : Error) × (init_prologix is_utf8 late room s ≡ (err e, s)))
        ⊎ ((s' : Stream) × (init_prologix is_utf8 late room s ≡ (ok tt, s')) × WasInitialized s')
  unfolding init_prologix write
  init_prologix-WasInitialized s all = elim (Option-cases s.write_error) [
    | inl e ↦ inr (
      record s { outgoing = s.outgoing ++ init_text },
      init_prologix-written s all e,
      (s.outgoing, [], ap (◌++◌ s.outgoing) (sym (append-nil init_text))),
    )
    | inr (kind, e) ↦ inl (
      Error.transport (TransportError.io kind),
      rw (write_fails s.write_error kind savecfg_text s e) refl,
    )
  ]
