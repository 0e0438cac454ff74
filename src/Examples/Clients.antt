-- ===== src/Examples/Clients.antt =====
-- Requests of a client.
use comsrv.Base.{
  ℕ, ◌+◌, ◌≡◌, refl, true, false, Bool, inr, List, [], ◌∷◌, ◌++◌, none, some, arith, ℕ_discrete,
}
use comsrv.Base.Assoc.{get}
use comsrv.Protocol.Error.{Result}
use comsrv.Protocol.Error as Server
use comsrv.Protocol.Can.{
  CanInstrument, loopback, DataFrame, data_frame, GctMessage, sys_ctrl, value, query, validate,
  returns,
}
use comsrv.Protocol.Can as CanMessages
use comsrv.Gct.Crc.{crc16}
use comsrv.Gct.Crc.Bitwise.{crc16_bitwise, crc16-bitwise}
use comsrv.Gct.Encode.{encode}
use comsrv.Gct.Decoder as Decoder
use comsrv.Gct.Decoder.{decode}
use comsrv.Stream.{Stream, silent}
use comsrv.ByteStream as ByteStream
use comsrv.ModBus.Handle.{rtu}
use comsrv.ModBus.Handle.Laws.{served}
use comsrv.ModBus.Crc.{with_crc}
use comsrv.ModBus.Registers.{words_bytes, to_be_bytes}
use comsrv.Inventory as Store
use comsrv.Inventory.{Inventory, wait_for_lock}
use comsrv.Inventory.Locking.{after_lock}
use comsrv.Client.{
  ClientError, ok, err, Request, Response, Call, check_lock, guard_locked, new_guard,
  unexpected_response,
}
use comsrv.Client.Laws.{responded, Serves, read_holding-words, wait_for_lock-check_lock}
use comsrv.Client.ModBus.{ModBusPipe, read_holding, read_single_holding}
use comsrv.Client.Can.{gct, send}
use comsrv.Client.GctCan.{
  finished, waits, monitor_request, monitor_request_no_timeout, sysctrl_write_read,
  sysctrl_write_read_no_timeout, sysctrl_filter, request_bits,
}
use comsrv.Client.GctCan.Laws.{
  IsOther, monitor_request-timeout, sysctrl_write_read-reply, sysctrl_filter-decode,
}

crc16-bitwise_example : crc16 (0x31 ∷ 0x32 ∷ []) ≡ crc16_bitwise 0xFFFF (0x31 ∷ 0x32 ∷ [])
crc16-bitwise_example = crc16-bitwise (0x31 ∷ 0x32 ∷ []) (omega arith, (omega arith, tt))

abbrev any_text : List ℕ → Bool
any_text text = true

abbrev quiet : List ℕ → Stream
quiet incoming = record {
  pending = [];
  incoming = incoming;
  ending = silent;
  outgoing = [];
  write_error = none;
}

-- A server whose byte stream requests all go to one connection.
abbrev one_connection : Request ℕ → Call Stream Response
one_connection (Request.bytes instrument req lock_id) s =
    responded (ByteStream.handle any_text 1 req s)
one_connection (Request.can instrument req lock_id) s = (err unexpected_response, s)
one_connection (Request.lock_request addr duration) s = (err unexpected_response, s)
one_connection (Request.unlock_request addr id) s = (err unexpected_response, s)

one_connection-Serves : Serves one_connection any_text 1 5
one_connection-Serves req lock_id s = refl

abbrev pipe_17 : ModBusPipe ℕ
pipe_17 = record {
  instrument = 5;
  lock = record { unlock = false; lock_id = none };
  station_address = 17;
  protocol = rtu;
}

abbrev reply_line : Stream
reply_line = quiet (with_crc (17 ∷ 3 ∷ 2 ∷ words_bytes (300 ∷ [])) ++ [])

read_holding-words_example :
    (read_holding one_connection pipe_17 16 1 reply_line
      ≡ (ok (300 ∷ []), served reply_line (17 ∷ 3 ∷ to_be_bytes 16 ++ to_be_bytes 1) []))
    × ((w : ℕ)
        → 300 ∷ [] ≡ w ∷ []
        → (read_single_holding one_connection pipe_17 16 reply_line).0 ≡ ok w)
read_holding-words_example =
    read_holding-words one_connection any_text 1 16 (300 ∷ []) [] pipe_17 reply_line
      one_connection-Serves refl refl refl refl (omega arith) (omega arith) (omega arith)
      (omega arith, tt)

abbrev open_number : ℕ → Result ℕ
open_number addr = Server.ok (addr + 100)

wait_for_lock-check_lock_example :
    wait_for_lock ℕ_discrete 7
      (check_lock (guard_locked {A = ℕ} (new_guard 7 1))).0
      (after_lock ℕ_discrete open_number 1 7 Store.new)
    ≡ some 1
unfolding Store.new Store.lock get
wait_for_lock-check_lock_example =
    wait_for_lock-check_lock ℕ_discrete open_number 1 7 Store.new refl

-- A server that takes every message.
abbrev takes_all : Request ℕ → Call ℕ Response
takes_all req n =
    (ok (Response.can CanMessages.CanAddress.loopback CanMessages.CanResponse.done), n + 1)

-- The reading 3 is named twice.
monitor_request-timeout_example :
    (monitor_request_no_timeout takes_all loopback 10 20 1 (3 ∷ 3 ∷ []) [] false 0 ≡ (waits, 1))
    × (monitor_request takes_all loopback 10 20 1 (3 ∷ 3 ∷ []) [] false 0
        ≡ (err ClientError.timeout, 1))
unfolding request_bits send
monitor_request-timeout_example =
    monitor_request-timeout takes_all loopback 10 20 1 8 3 (3 ∷ 3 ∷ []) [] 0 1 (omega arith) refl
      refl (inr ((refl, (refl, tt)), omega arith))

-- A value of another command.
abbrev other_value : Response
other_value =
    Response.can CanMessages.CanAddress.loopback
      (CanMessages.CanResponse.gct (sys_ctrl 20 10 6 value (2 ∷ [])))

other_value-IsOther : IsOther 20 5 other_value
other_value-IsOther source to reply e = cc

sysctrl_write_read-reply_example :
    (sysctrl_write_read_no_timeout takes_all loopback 10 5 20 []
        ((other_value ∷ [])
          ++ Response.can CanMessages.CanAddress.loopback
              (CanMessages.CanResponse.gct (sys_ctrl 20 10 5 value (1 ∷ [])))
            ∷ [])
        false
        0
      ≡ (finished (ok (1 ∷ [])), 1))
    × (sysctrl_write_read takes_all loopback 10 5 20 []
          ((other_value ∷ [])
            ++ Response.can CanMessages.CanAddress.loopback
                (CanMessages.CanResponse.gct (sys_ctrl 20 10 5 value (1 ∷ [])))
              ∷ [])
          false
          0
        ≡ (ok (1 ∷ []), 1))
unfolding send
sysctrl_write_read-reply_example =
    sysctrl_write_read-reply takes_all loopback 10 5 20 10 [] (1 ∷ [])
      CanMessages.CanAddress.loopback (other_value ∷ []) [] false 0 1 refl (other_value-IsOther, tt)

-- The command 700.
sysctrl_filter-decode_example :
    (f : DataFrame) × (seen : GctMessage) × (encode (sys_ctrl 20 10 700 value (1 ∷ []))
      ≡ Server.ok (data_frame f ∷ []))
    × (decode Decoder.new (data_frame f) ≡ returns (Decoder.new, some seen))
    × (sysctrl_filter 20 700 (gct seen) ≡ none)
unfolding validate
sysctrl_filter-decode_example =
    sysctrl_filter-decode Decoder.new 700 20 10 (1 ∷ []) (omega arith) refl
