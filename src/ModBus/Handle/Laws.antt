-- ===== src/ModBus/Handle/Laws.antt =====
-- Whole requests over RTU: reading registers and writing them, against a server that follows the
-- protocol.
use comsrv.Base.{
  ℕ, ◌⊎◌, inl, inr, true, append-nil, ◌*◌, ◌≤◌, ◌<◌, ◌≡◌, refl, sym, ap, ◌∙◌, false, List, [], ◌∷◌,
  ◌++◌, none, length, All, IsByte, IsU16, ltb, ◌==◌, as_u8, as_u16, arith,
}
use comsrv.Protocol.Error.{Result, argument_error}
use comsrv.Stream.{Stream, ok, err, lift}
use comsrv.Stream.Laws.{Waits, read_all-Waits}
use comsrv.ModBus.{TransactionInfo}
use comsrv.ModBus.Crc.{with_crc}
use comsrv.ModBus.Registers.{
  to_be_bytes, ReadU16Registers, new_read_u16, read_u16, words_bytes, WriteRegisters,
  new_write_registers, write_registers as registers_code, check_write_header,
}
use comsrv.ModBus.Registers.Words.{length-words_bytes, parse_frame-words_bytes}
use comsrv.ModBus.Rtu
use comsrv.ModBus.Rtu.Exchange.{IsReady, after, handle_reply}
use comsrv.ModBus.Handle.{
  ModBusProtocol, rtu, read_input, read_holding, write_registers, done, number, handler_handle, run,
  dispatch, handle,
}

words_bytes-IsByte : (ws : List ℕ) → All IsByte (words_bytes ws)
unfolding words_bytes
words_bytes-IsByte [] = tt
words_bytes-IsByte (w ∷ ws) = (omega arith, (omega arith, words_bytes-IsByte ws))

-- What had arrived is dropped, the request is written, and `rest` is left.
abbrev pub served : Stream → List ℕ → List ℕ → Stream
served s request rest = record s {
  pending = [];
  incoming = rest;
  outgoing = s.outgoing ++ with_crc request;
}

read_u16-reply :
    (r : ReadU16Registers) (t : TransactionInfo) (ws rest : List ℕ) (s : Stream)
    → s.pending ≡ []
    → s.write_error ≡ none
    → s.incoming
      ≡ with_crc (t.station_address ∷ r.function_code ∷ 2 * length ws ∷ words_bytes ws) ++ rest
    → t.station_address < 256
    → r.function_code < 128
    → length ws ≡ r.cnt
    → length ws ≤ 125
    → All IsU16 ws
    → Rtu.handle (read_u16 r) t s ≡ (ok ws, after (read_u16 r) t s rest)
unfolding read_u16
read_u16-reply r t ws rest s p we e hs hf hc k u =
    let ready : IsReady (read_u16 r) t s
        (with_crc (t.station_address ∷ r.function_code ∷ 2 * length ws ∷ words_bytes ws) ++ rest) =
      record { fits = omega arith; code-lt = hf; drained = p; writable = we; comes = e } in
    let is_bytes : All IsByte
        (t.station_address ∷ r.function_code ∷ 2 * length ws ∷ words_bytes ws) =
      (hs, (omega arith, (omega arith, words_bytes-IsByte ws))) in
    let length_ok : (read_u16 r).get_data_length_from_header (2 * length ws ∷ [])
        ≡ Result.ok (length (words_bytes ws)) =
      rw (length-words_bytes ws) (ground arith) in
    let parsed : (read_u16 r).parse_frame (words_bytes ws) ≡ Result.ok ws =
      ap (read_u16 r).parse_frame (sym (append-nil (words_bytes ws)))
      ∙ parse_frame-words_bytes r ws [] hc u in
    handle_reply (read_u16 r) t (2 * length ws ∷ []) (words_bytes ws) rest s ready is_bytes refl
      length_ok
    ∙ ap (λ (o : Result (List ℕ)). lift o (after (read_u16 r) t s rest)) parsed

-- A request for 1 to 125 holding registers over RTU, on a connection that has to wait and takes
-- writes, drops what had arrived, sends the station, the code 3, address and count with their
-- checksum, and from the reply that carries that many words returns exactly these words; what
-- follows the reply is left.
pub handle-read_holding :
    (transaction_id station addr : ℕ) (ws rest : List ℕ) (s : Stream)
    → Waits s
    → s.write_error ≡ none
    → s.incoming ≡ with_crc (station ∷ 3 ∷ 2 * length ws ∷ words_bytes ws) ++ rest
    → station < 256
    → 1 ≤ length ws
    → length ws ≤ 125
    → All IsU16 ws
    → handle transaction_id station rtu (read_holding addr (length ws)) s
      ≡ (ok (number ws), served s (station ∷ 3 ∷ to_be_bytes addr ++ to_be_bytes (length ws)) rest)
unfolding handle dispatch run handler_handle new_read_u16 read_u16
handle-read_holding transaction_id station addr ws rest s w we e hs h k u =
    let s1 = record s { pending = [] } in
    let t : TransactionInfo = record {
      transaction_id = transaction_id;
      station_address = station;
    } in
    let r : ReadU16Registers = record { function_code = 3; address = addr; cnt = length ws } in
    let made : new_read_u16 3 addr (length ws) ≡ Result.ok r = ground arith in
    rw (read_all-Waits s w, made, read_u16-reply r t ws rest s1 refl we e hs (omega arith) refl k u)

-- A request to read no holding or input registers, or more than 125, is an argument error over
-- RTU and TCP, and the connection is as it was.
pub dispatch_argument :
    (protocol : ModBusProtocol) (t : TransactionInfo) (addr cnt : ℕ) (s : Stream)
    → (cnt ≡ 0) ⊎ (125 < cnt)
    → (dispatch protocol t (read_holding addr cnt) s ≡ (err argument_error, s))
      × (dispatch protocol t (read_input addr cnt) s ≡ (err argument_error, s))
unfolding dispatch run new_read_u16
dispatch_argument protocol t addr cnt s (inl z) = (rw z, rw z)
dispatch_argument protocol t addr cnt s (inr many) =
    let not_zero : (cnt == 0) ≡ false = ground arith in
    let big : ltb 125 cnt ≡ true = ground arith in (rw (not_zero, big), rw (not_zero, big))

header_ok :
    (addr n : ℕ)
    → addr < 65536
    → n < 65536
    → check_write_header (to_be_bytes addr ++ to_be_bytes n) addr n ≡ Result.ok tt
unfolding check_write_header
header_ok addr n ha hn = ground arith

write_registers-reply :
    (r : WriteRegisters) (t : TransactionInfo) (rest : List ℕ) (s : Stream)
    → s.pending ≡ []
    → s.write_error ≡ none
    → s.incoming
      ≡ with_crc (t.station_address ∷ 16 ∷ to_be_bytes r.address ++ to_be_bytes (length r.values))
        ++ rest
    → t.station_address < 256
    → r.address < 65536
    → length r.values ≤ 124
    → Rtu.handle (registers_code r) t s ≡ (ok tt, after (registers_code r) t s rest)
unfolding registers_code
write_registers-reply r t rest s p we e hs ha k =
    let echo = to_be_bytes r.address ++ to_be_bytes (length r.values) in
    let ready : IsReady (registers_code r) t s
        (with_crc (t.station_address ∷ 16 ∷ echo ++ []) ++ rest) =
      record {
        fits = omega (arith, length-words_bytes r.values);
        code-lt = omega arith;
        drained = p;
        writable = we;
        comes = e;
      } in
    let is_bytes : All IsByte (t.station_address ∷ 16 ∷ echo ++ []) =
      (hs, (omega arith, (omega arith, (omega arith, (omega arith, (omega arith, tt)))))) in
    let length_ok : (registers_code r).get_data_length_from_header echo ≡ Result.ok 0 =
      rw (header_ok r.address (length r.values) ha (omega arith)) in
    handle_reply (registers_code r) t echo [] rest s ready is_bytes refl length_ok

-- A request to write 1 to 124 registers at a 16 bit address over RTU, on a connection that has to
-- wait and takes writes, drops what had arrived, sends the station, the code 16, address, count,
-- byte count and words with their checksum, and is done when the server echoes address and count.
pub handle-write_registers :
    (transaction_id station addr : ℕ) (ws rest : List ℕ) (s : Stream)
    → Waits s
    → s.write_error ≡ none
    → s.incoming ≡ with_crc (station ∷ 16 ∷ to_be_bytes addr ++ to_be_bytes (length ws)) ++ rest
    → station < 256
    → addr < 65536
    → 1 ≤ length ws
    → length ws ≤ 124
    → handle transaction_id station rtu (write_registers addr ws) s ≡ (
      ok done,
      served s
          (station ∷ 16 ∷ to_be_bytes addr
            ++ (to_be_bytes (length ws) ++ 2 * length ws ∷ words_bytes ws))
          rest,
    )
unfolding handle dispatch run handler_handle new_write_registers registers_code
handle-write_registers transaction_id station addr ws rest s w we e hs ha h k =
    let s1 = record s { pending = [] } in
    let t : TransactionInfo = record {
      transaction_id = transaction_id;
      station_address = station;
    } in
    let r : WriteRegisters = record { address = addr; values = ws } in
    let made : new_write_registers addr ws ≡ Result.ok r = ground arith in
    let sixteen : as_u16 (length ws) ≡ length ws = omega arith in
    let count : as_u8 (2 * as_u8 (length ws)) ≡ 2 * length ws = omega arith in
    rw (
      read_all-Waits s w,
      made,
      write_registers-reply r t rest s1 refl we e hs ha k,
      sixteen,
      count,
    )
