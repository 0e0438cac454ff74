-- ===== src/Examples/Transports.antt =====
-- The handlers of the TCP, serial and CAN transports.
use comsrv.Base.{
  ℕ, suc, ◌<◌, ◌≡◌, ◌≢◌, refl, true, false, Bool, List, [], ◌∷◌, ◌++◌, Option, none, some, length,
  arith,
}
use comsrv.Protocol.Error.{
  ErrorKind, Error, transport, io, broken_pipe, connection_reset, should_retry,
}
use comsrv.Protocol.Error as Server
use comsrv.Protocol.Can.{
  loopback, CanMessage, GctMessage, heartbeat, validate, tx_gct, done, returns, gct,
}
use comsrv.Protocol.Scpi.{query_string}
use comsrv.Protocol.Scpi
use comsrv.Gct.Encode.{encode}
use comsrv.Stream.{Stream, silent, ok, write_all}
use comsrv.Stream.Laws.{TakesAll}
use comsrv.Cobs.Streaming.{decode_stream}
use comsrv.ByteStream.{write, disconnect, handle as handle_byte_stream}
use comsrv.ByteStream
use comsrv.Prologix.{addr_set, to_line, read_text, handle_prologix_request}
use comsrv.Prologix.Laws.{query_string-reply}
use comsrv.Transport.CobsStream.{transmit_frames}
use comsrv.Transport.CobsStream.Laws.{transmit-decode_stream}
use comsrv.Transport.Tcp as Tcp
use comsrv.Transport.Tcp.{Attempt, connected}
use comsrv.Transport.Tcp.Laws.{prepared, attempt, Failures, IsFinal, handle-Failures}
use comsrv.Transport.Tcp.Connection.{handle-reconnect}
use comsrv.Transport.Serial as Serial
use comsrv.Transport.Serial.{prologix, prologix_params}
use comsrv.Transport.Serial.Exclusive.{IsExclusive, handle-IsExclusive}
use comsrv.Transport.Serial.Init.{IsFlagRight, handle-IsFlagRight}
use comsrv.Transport.Can as Can
use comsrv.Transport.Can.{CanError, io_error, on_loopback, on_bus, Mailbox}
use comsrv.Transport.Can.Laws.{Paired, handle-Paired, IsReady, result_of, handle-result_of}
use comsrv.Transport.Can.Loopback.{handle-listen}
use comsrv.Transport.Can.Listener.{loop_back, Listener, listen, control, can}
use comsrv.Transport.Can.Listener as Listening
use comsrv.Transport.Can.Listener.Laws.{CanSend, Encodes, looped, seen_of, raw_of, listen-encode}

-- Every text is UTF-8 here, and every transaction has the id 1.
abbrev any_text : List ℕ → Bool
any_text text = true

abbrev one_id : ℕ → ℕ
one_id tries = 1

abbrev quiet : List ℕ → Stream
quiet incoming = record {
  pending = [];
  incoming = incoming;
  ending = silent;
  outgoing = [];
  write_error = none;
}

-- A connection whose writes fail.
abbrev broken_line : Stream
broken_line = record {
  pending = [];
  incoming = [];
  ending = silent;
  outgoing = [];
  write_error = some broken_pipe;
}

abbrev network : ℕ → Attempt
network n = connected 10 (quiet [])

abbrev hello : List ℕ
hello = b'h' ∷ b'i' ∷ []

write-disconnect : (bytes : List ℕ) → write bytes ≢ disconnect
write-disconnect bytes e = cc

abbrev on_broken_line : Tcp.Handler
on_broken_line = record {
  stream = some broken_line;
  last_request = 0;
  drop_delay = 100000;
  connection_timeout = 500;
  drop_delay_task = none;
  cobs_stream = none;
  cobs_stream_use_crc = false;
  attempts = 0;
}

handle-Failures_example :
    (n : ℕ) × (h' : Tcp.Handler) × (n < 4)
    × Failures any_text one_id network n 0 (write hello) (prepared 7 none on_broken_line) h'
    × IsFinal any_text one_id network
        (suc n)
        (attempt any_text one_id network (suc n) (write hello) h').0
    × (Tcp.handle any_text one_id network 7 (Tcp.TcpRequest.bytes (write hello) none) on_broken_line
        ≡ Tcp.wrap (attempt any_text one_id network (suc n) (write hello) h'))
handle-Failures_example =
    handle-Failures any_text one_id network 7 (write hello) none on_broken_line
      (write-disconnect hello)

-- The bytes go over the new connection.
handle-reconnect_example :
    Tcp.handle any_text one_id network 7 (Tcp.TcpRequest.bytes (write hello) none) on_broken_line
    ≡ (
      ok (Tcp.TcpResponse.bytes ByteStream.done),
      record (prepared 7 none on_broken_line) {
        stream = some (record (quiet []) { outgoing = hello });
        drop_delay_task = some 100100;
        attempts = 1;
      },
    )
unfolding Tcp.set_options_of handle_byte_stream should_retry write_all
handle-reconnect_example =
    handle-reconnect any_text one_id network 7 10 (write hello) none on_broken_line broken_line
      broken_line (quiet []) (record (quiet []) { outgoing = hello }) (transport (io broken_pipe))
      ByteStream.done (write-disconnect hello) refl refl refl refl (omega arith) refl

abbrev all_at_once : List ℕ → Stream → ℕ
all_at_once bytes s = length bytes

abbrev in_time : ℕ → Bool
in_time n = false

-- A port that is open for requests.
abbrev open_port : Serial.Handler
open_port = record {
  port = some (quiet [], prologix_params);
  cobs_stream = none;
  prologix_initialized = false;
  drop_delay = 60000;
  last_request = 0;
  drop_delay_task = none;
  cobs_stream_use_crc = true;
}

abbrev idn : Serial.Request
idn = prologix 12 (Scpi.write (b'*' ∷ []))

handle-IsExclusive_example :
    IsExclusive (Serial.handle any_text in_time all_at_once 1 5 none none idn open_port).1
handle-IsExclusive_example =
    handle-IsExclusive any_text in_time all_at_once 1 5 none none idn open_port tt

all_at_once-TakesAll : TakesAll all_at_once
all_at_once-TakesAll bytes s = refl

handle-IsFlagRight_example :
    IsFlagRight (Serial.handle any_text in_time all_at_once 1 5 none none idn open_port).1
handle-IsFlagRight_example =
    handle-IsFlagRight any_text in_time all_at_once 1 5 none none idn open_port all_at_once-TakesAll
      tt

query_string-reply_example :
    handle_prologix_request any_text in_time all_at_once 12
      (query_string (b'?' ∷ []))
      (quiet (b'o' ∷ b'k' ∷ 10 ∷ []))
    ≡ (
      ok (Scpi.string (b'o' ∷ b'k' ∷ [])),
      record (quiet []) { outgoing = (addr_set 12 ++ to_line (b'?' ∷ [])) ++ read_text },
    )
query_string-reply_example =
    query_string-reply any_text in_time all_at_once 12 (b'?' ∷ []) (b'o' ∷ b'k' ∷ []) []
      (quiet (b'o' ∷ b'k' ∷ 10 ∷ [])) all_at_once-TakesAll refl refl refl
      (omega arith, (omega arith, tt)) refl (λ n h. refl)

transmit-decode_stream_example :
    (line : List ℕ) × (transmit_frames all_at_once (hello ∷ (0 ∷ []) ∷ []) (quiet [])
      ≡ (none, record (quiet []) { outgoing = line }))
    × (decode_stream [] line ≡ ([], hello ∷ (0 ∷ []) ∷ []))
transmit-decode_stream_example =
    transmit-decode_stream all_at_once (hello ∷ (0 ∷ []) ∷ []) (quiet []) all_at_once-TakesAll refl

abbrev any_frame : CanMessage → Bool
any_frame msg = true

-- Sending on the bus fails.
abbrev reset_bus : List CanMessage → Option CanError
reset_bus sent = some (io_error connection_reset)

abbrev mailbox : Mailbox
mailbox = record { closed = false; messages = [] }

abbrev on_device : Can.CanSender → Can.Handler
on_device device = record {
  last_instrument = none;
  sender = some device;
  listener = some mailbox;
  loopback = true;
  former = [];
}

abbrev beat : GctMessage
beat = heartbeat 5 300

abbrev send_beat : Can.Request
send_beat = record { inner = tx_gct beat; instrument = loopback }

handle-Paired_example :
    Paired (Can.handle any_frame reset_bus none send_beat (on_device (on_bus [])))
handle-Paired_example = handle-Paired any_frame reset_bus none send_beat (on_device (on_bus []))

ready :
    (device : Can.CanSender)
    → IsReady any_frame reset_bus loopback device mailbox (on_device device)
unfolding Can.other_bitrate
ready device = record { has_sender = refl; has_listener = refl; runs = refl; same_bitrate = refl }

-- The reset of the bus makes it panic.
handle-result_of_example :
    Can.handle any_frame reset_bus none send_beat (on_device (on_bus []))
    ≡ result_of any_frame reset_bus (
        Can.request_on any_frame reset_bus
          (tx_gct beat)
          (on_bus [])
          mailbox
          (record (on_device (on_bus [])) { last_instrument = some loopback }))
handle-result_of_example =
    handle-result_of any_frame reset_bus none send_beat (on_bus []) mailbox (on_device (on_bus []))
      (ready (on_bus []))

beat-CanSend : CanSend beat
unfolding validate
beat-CanSend = (omega arith, refl)

handle-listen_example :
    (frame : CanMessage) × (encode beat ≡ Server.Result.ok (frame ∷ []))
    × (Can.handle any_frame reset_bus none send_beat (on_device (on_loopback []))
        ≡ returns (
          Server.Result.ok done,
          record (on_device (on_loopback [])) {
            last_instrument = some loopback;
            sender = some (on_loopback (frame ∷ []));
            listener = some (record mailbox { messages = loop_back frame ∷ [] });
          },
        ))
    × (listen (control (loop_back frame) ∷ []) Listening.new
        ≡ returns (true, Listening.new, raw_of true (frame ∷ []) ++ (can (gct beat) ∷ [])))
unfolding Listening.new
handle-listen_example =
    handle-listen any_frame reset_bus none loopback beat [] mailbox (on_device (on_loopback []))
      Listening.new (ready (on_loopback [])) refl beat-CanSend refl

listen-encode_example :
    (frames : List CanMessage) × Encodes (beat ∷ beat ∷ []) frames
    × (listen (looped frames) Listening.new
        ≡ returns (true, Listening.new, seen_of true (beat ∷ beat ∷ []) frames))
unfolding Listening.new
listen-encode_example =
    listen-encode (beat ∷ beat ∷ []) Listening.new (beat-CanSend, (beat-CanSend, tt)) refl
