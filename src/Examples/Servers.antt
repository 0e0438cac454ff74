-- ===== src/Examples/Servers.antt =====
-- ModBus requests against servers over RTU and TCP.
use comsrv.Base.{ℕ, ◌≡◌, refl, List, [], ◌∷◌, ◌++◌, none, arith}
use comsrv.Protocol.Error.{protocol_error}
use comsrv.Stream.{Stream, silent, ok, err, lift}
use comsrv.ModBus.{TransactionInfo}
use comsrv.ModBus.Crc.{crc, with_crc}
use comsrv.ModBus.Registers.{to_be_bytes, ReadU16Registers, read_u16, words_bytes}
use comsrv.ModBus.Rtu
use comsrv.ModBus.Rtu.{exception_error}
use comsrv.ModBus.Rtu.Exchange as RtuExchange
use comsrv.ModBus.Rtu.Exchange.{handle_reply, handle_corrupt, handle_exception, handle_stranger}
use comsrv.ModBus.Tcp
use comsrv.ModBus.Tcp.Exchange as TcpExchange
use comsrv.ModBus.Tcp.Exchange.{handle_tcp_reply, handle_tcp_stranger}
use comsrv.ModBus.Handle.{rtu, write_registers, done, handle}
use comsrv.ModBus.Handle.Laws.{served, handle-write_registers}

abbrev idle : List ℕ → Stream
idle incoming = record {
  pending = [];
  incoming = incoming;
  ending = silent;
  outgoing = [];
  write_error = none;
}

abbrev station_17 : TransactionInfo
station_17 = record { transaction_id = 300; station_address = 17 }

abbrev read_one : ReadU16Registers
read_one = record { function_code = 3; address = 16; cnt = 1 }

abbrev reply_one : List ℕ
reply_one = with_crc (17 ∷ 3 ∷ 2 ∷ 1 ∷ 44 ∷ [])

handle_reply_example :
    Rtu.handle (read_u16 read_one) station_17 (idle (reply_one ++ []))
    ≡ lift
        ((read_u16 read_one).parse_frame (1 ∷ 44 ∷ []))
        (RtuExchange.after (read_u16 read_one) station_17 (idle (reply_one ++ [])) [])
unfolding read_u16
handle_reply_example =
    handle_reply (read_u16 read_one) station_17 (2 ∷ []) (1 ∷ 44 ∷ []) [] (idle (reply_one ++ []))
      (record {
        fits = omega arith;
        code-lt = omega arith;
        drained = refl;
        writable = refl;
        comes = refl;
      })
      (omega arith, (omega arith, (omega arith, (omega arith, (omega arith, tt))))) refl refl

handle_corrupt_example :
    Rtu.handle (read_u16 read_one) station_17 (idle (17 ∷ 3 ∷ 2 ∷ 1 ∷ 44 ∷ 0 ∷ 0 ∷ [])) ≡ (
      err protocol_error,
      RtuExchange.after (read_u16 read_one) station_17 (idle (17 ∷ 3 ∷ 2 ∷ 1 ∷ 44 ∷ 0 ∷ 0 ∷ [])) [],
    )
unfolding read_u16 crc
handle_corrupt_example =
    handle_corrupt (read_u16 read_one) station_17 (2 ∷ []) (1 ∷ 44 ∷ 0 ∷ 0 ∷ []) [] 2
      (idle (17 ∷ 3 ∷ 2 ∷ 1 ∷ 44 ∷ 0 ∷ 0 ∷ []))
      (record {
        fits = omega arith;
        code-lt = omega arith;
        drained = refl;
        writable = refl;
        comes = refl;
      })
      refl refl refl (λ e. omega (arith, e))

abbrev tcp_reply : List ℕ
tcp_reply = TcpExchange.mbap station_17 3 3 ++ (((2 ∷ []) ++ 1 ∷ 44 ∷ []) ++ [])

handle_tcp_reply_example :
    Tcp.handle (read_u16 read_one) station_17 (idle tcp_reply)
    ≡ lift
        ((read_u16 read_one).parse_frame (1 ∷ 44 ∷ []))
        (TcpExchange.after (read_u16 read_one) station_17 (idle tcp_reply) [])
unfolding read_u16
handle_tcp_reply_example =
    handle_tcp_reply (read_u16 read_one) station_17 (2 ∷ []) (1 ∷ 44 ∷ []) [] 2 (idle tcp_reply)
      (record {
        fits = omega arith;
        id-lt = omega arith;
        code-lt = omega arith;
        drained = refl;
        writable = refl;
        comes = refl;
      })
      (omega arith) refl refl (omega arith)

abbrev other_header : List ℕ
other_header = 0 ∷ 1 ∷ 0 ∷ 0 ∷ 0 ∷ 5 ∷ 17 ∷ 3 ∷ []

abbrev holding : Stream
holding = idle (with_crc (17 ∷ 3 ∷ 2 ∷ words_bytes (300 ∷ [])) ++ [])

abbrev written : Stream
written = idle (with_crc (17 ∷ 16 ∷ to_be_bytes 16 ++ to_be_bytes 1) ++ [])

handle-write_registers_example : handle 300 17 rtu (write_registers 16 (300 ∷ [])) written ≡ (
  ok done,
  served written (17 ∷ 16 ∷ to_be_bytes 16 ++ (to_be_bytes 1 ++ 2 ∷ words_bytes (300 ∷ []))) [],
)
handle-write_registers_example =
    handle-write_registers 300 17 16 (300 ∷ []) [] written refl refl refl (omega arith)
      (omega arith) (omega arith) (omega arith)
