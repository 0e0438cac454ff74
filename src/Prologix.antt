-- ===== src/Prologix.antt =====
-- comsrv/src/protocol/prologix.rs: SCPI requests over a Prologix GPIB controller on a serial port.
-- The check that bytes are UTF-8 is a parameter, and so are the number of bytes that one call of
-- `AsyncWriteExt::write` takes, and whether the timeout of a reply is over after a number of bytes.
pub mod Laws
pub mod Total
pub mod Outgoing
use comsrv.Base.{
  ℕ, zero, suc, ◌+◌, ◌/◌, ◌%◌, Bool, true, false, List, [], ◌∷◌, ◌++◌, Option, none, some, length,
  take, ltb, ◌==◌, if◌then◌else◌,
}
use comsrv.Protocol.Error.{
  ErrorKind, transport, io, protocol_timeout, protocol_error, argument_error,
}
use comsrv.Protocol.Scpi.{
  ScpiRequest, ScpiResponse, query_string, query_binary, read_raw, done, string,
}
use comsrv.Protocol.Scpi
use comsrv.Stream.{
  Stream, Outcome, ok, err, hangs, Io, ◌>>=◌, ◌>>◌, and_then, pure, raise, read_u8,
  read_all as read_everything,
}
use comsrv.Stream.Laws.{available}

-- "++savecfg 0\n", "++auto 0\n", "++eos 3\n", "++read eoi\n" and "++addr ".
abbrev pub savecfg_text : List ℕ
savecfg_text = b'+' ∷ b'+' ∷ b's' ∷ b'a' ∷ b'v' ∷ b'e' ∷ b'c' ∷ b'f' ∷ b'g' ∷ b' ' ∷ b'0' ∷ 10 ∷ []

abbrev pub auto_text : List ℕ
auto_text = b'+' ∷ b'+' ∷ b'a' ∷ b'u' ∷ b't' ∷ b'o' ∷ b' ' ∷ b'0' ∷ 10 ∷ []

abbrev pub eos_text : List ℕ
eos_text = b'+' ∷ b'+' ∷ b'e' ∷ b'o' ∷ b's' ∷ b' ' ∷ b'3' ∷ 10 ∷ []

abbrev pub read_text : List ℕ
read_text = b'+' ∷ b'+' ∷ b'r' ∷ b'e' ∷ b'a' ∷ b'd' ∷ b' ' ∷ b'e' ∷ b'o' ∷ b'i' ∷ 10 ∷ []

abbrev pub addr_text : List ℕ
addr_text = b'+' ∷ b'+' ∷ b'a' ∷ b'd' ∷ b'd' ∷ b'r' ∷ b' ' ∷ []

-- A `u8` in decimal.
unfoldable pub show_u8 : ℕ → List ℕ
show_u8 n =
    if ltb n 10
    then (48 + n) ∷ []
    else if ltb n 100
    then (48 + n / 10) ∷ (48 + n % 10) ∷ []
    else (48 + n / 100) ∷ (48 + n / 10 % 10) ∷ (48 + n % 10) ∷ []

unfoldable pub addr_set : ℕ → List ℕ
unfolding show_u8
addr_set addr = addr_text ++ (show_u8 addr ++ (10 ∷ []))

-- `ends_with('\n')`
unfoldable pub ends_line : List ℕ → Bool
ends_line [] = false
ends_line (b ∷ []) = b == 10
ends_line (b ∷ c ∷ rest) = ends_line (c ∷ rest)

unfoldable pub to_line : List ℕ → List ℕ
unfolding ends_line
to_line msg = if ends_line msg then msg else msg ++ (10 ∷ [])

module _ (is_utf8 : List ℕ → Bool) (late : ℕ → Bool) (room : List ℕ → Stream → ℕ) where
  write_part : Option ErrorKind → List ℕ → Io (Unit {0})
  write_part none msg s = (ok tt, record s { outgoing = s.outgoing ++ take (room msg s) msg })
  write_part (some kind) msg s = (err (transport (io kind)), s)

  unfoldable pub write : List ℕ → Io (Unit {0})
  unfolding write_part
  write msg s = write_part s.write_error msg s

  unfoldable pub init_prologix : Io (Unit {0})
  unfolding write
  init_prologix = do write savecfg_text; write auto_text; write eos_text

  unfoldable pub write_prologix : List ℕ → Io (Unit {0})
  unfolding write to_line
  write_prologix msg = write (to_line msg)

  -- The loop of `read_prologix`, on fuel. Each round takes a byte or ends the loop.
  unfoldable pub read_reply : (fuel : ℕ) → List ℕ → Io (List ℕ)
  read_reply zero ret s = (hangs, s)
  read_reply (suc fuel) ret s = and_then (read_u8 s) (λ x s'.
      let rest = read_reply fuel (ret ++ (x ∷ [])) s' in
      if x == 10
      then (ok ret, s')
      else if late (length ret + 1)
      then (err protocol_timeout, s')
      else rest)

  unfoldable pub decoded : List ℕ → Io (List ℕ)
  decoded ret = if is_utf8 ret then pure ret else raise protocol_error

  unfoldable pub read_prologix : Io (List ℕ)
  unfolding read_reply decoded
  read_prologix = do ret ← λ s. read_reply (available s + 1) [] s; decoded ret

  unfoldable pub handle_scpi : ScpiRequest → Io ScpiResponse
  unfolding write_prologix read_prologix write
  handle_scpi (Scpi.write x) = do write_prologix x; pure done
  handle_scpi (query_string x) = do
    write_prologix x
    write read_text
    reply ← read_prologix
    pure (string reply)
  handle_scpi (query_binary x) = raise argument_error
  handle_scpi read_raw = raise argument_error

  unfoldable pub handle_prologix_request : (addr : ℕ) → ScpiRequest → Io ScpiResponse
  unfolding handle_scpi write addr_set
  handle_prologix_request addr req = do read_everything; write (addr_set addr); handle_scpi req
