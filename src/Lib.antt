-- ===== src/Lib.antt =====
-- comsrv: a server that shares instruments (serial ports, TCP connections, CAN buses and others)
-- between clients. This library models the server's dispatch, the inventories that hand instruments
-- out, the handlers of the connections, the protocols that are spoken on them, and the client.
--
-- How the parts of the program interact: a client's request is dispatched to an instrument of the
-- inventory (comsrv/src/app.rs, inventory.rs beside it), which may be locked for one client. Each
-- instrument is a task of its own (iotask.rs there) around the handler of its transport
-- (comsrv/src/transport), which opens, keeps and closes the connection. For a byte stream the
-- request is handled by comsrv/src/protocol/bytestream/mod.rs, which writes and reads lines, COBS
-- frames (cobs.rs beside it) or ModBus transactions (comsrv/src/protocol/modbus). For a CAN bus,
-- messages of the GCT protocol (protocol/src/can.rs) are put into frames and reassembled by
-- comsrv/src/protocol/can/gct.rs.
--
-- Base: Boolean tests, lists over native numbers, bit operations as arithmetic, bytes of words,
--   association lists for `HashMap`, and `slice::chunks`.
-- Protocol.Error: protocol/src/error.rs; a text in an error is one value, exceptions are kept.
-- Protocol.MessageId, Protocol.Can: protocol/src/can.rs.
-- Gct.Crc: comsrv/src/protocol/can/crc.rs. Gct.Encode, Gct.DdpV1, Gct.DdpV2, Gct.Decoder: the
--   functions `encode`, `DdpDecoderV1::decode`, `DdpDecoderV2::decode` and `Decoder::decode` of
--   comsrv/src/protocol/can/gct.rs, with the state of a decoder passed on.
-- Cobs: `cobs_encode` and `cobs_decode` of comsrv/src/protocol/bytestream/cobs.rs. Cobs.Streaming:
--   `StreamingCobsDecoder` there, and `CobsDecoder` of comsrv/src/protocol/cobs_stream.rs.
-- Stream: what the code sees of a connection. Bytes that have arrived, bytes that will arrive, how
--   the connection goes on after them, and what was written. Calls of tokio's readers and writers
--   are functions on it after their documentation: `read_exact` takes bytes in order and fails at
--   the end of the stream, `write_all` writes all or fails, and `poll_read` is ready with no byte
--   at the end, until tokio's budget for one poll is used up. A request that waits for ever ends by
--   the timeout around it. `read_all` is `ReadAll` of comsrv/src/protocol/bytestream/mod.rs.
-- ByteStream: `handle` of that file, for every request. The test for UTF-8 and the random
--   transaction id of ModBus are parameters.
-- ModBus: the trait `FunctionCode` as a record, its implementations in registers.rs and ddp.rs of
--   comsrv/src/protocol/modbus, and the handlers of rtu.rs, tcp.rs and mod.rs there.
-- Inventory: the content of `Inventory`, the parts of its methods that run under its mutex as
--   functions on it, and all orders of them as a step relation. The instrument, its address and
--   `Instrument::connect` are parameters. New ids are those that are not registered.
--   Inventory.Refinement: an abstract table of locks with the same operations.
-- IoTask: `IoTask` of comsrv/src/iotask.rs. The channel is a list, the senders are counted, and a
--   round takes one message; `handle` of the handler is a parameter, without a result where it
--   panics.
-- Transport.Tcp, Transport.Serial, Transport.Can: the handlers of comsrv/src/transport/tcp.rs,
--   serial/mod.rs (its requests are Transport.Serial.Messages) and can.rs there. What connecting,
--   opening a port, its pins or the bus give are parameters; a clock is a number.
--   Transport.Can.Listener is `listener_task`, over the events that its `select!` takes.
--   Transport.CobsStream: `CobsStream` of comsrv/src/protocol/cobs_stream.rs.
-- Prologix: comsrv/src/protocol/prologix.rs. How much a single `write` takes is a parameter.
-- App, App.Dispatch: `App::handle` of comsrv/src/app.rs over the seven inventories. The new id of
--   a lock is an argument, and the calls of the instruments' tasks are parameters. An answer may
--   be to wait for a lock, or for the task of an instrument to be closed; App.Drop has this together
--   with the state of the task.
-- Client: client/src/lib.rs. Client.ByteStream, Client.ModBus, Client.Can, Client.GctCan: the files
--   of these names there, over a parameter for the call of the server. A subscription is the list
--   of what arrives on it, up to the end of the timeout if the request has one.
-- Scpi: comsrv/src/protocol/scpi.rs. SerialParams: comsrv/src/transport/serial/params.rs.
-- Examples: the theorems at concrete inputs.
--
-- Fuel: the loop of `cobs_decode` runs on the length of its input and `slice::chunks` on the length
-- of the slice, since each round takes an element. The loops that read a connection run on the
-- number of bytes that can still be read and one more; a round takes a byte or ends the loop. In
-- place of fuel the loop of `read_all` has tokio's budget for the reads of a task that are ready in
-- one poll: when it is used up, a read is pending, which ends the loop on a closed connection. The
-- budget is taken to be enough for the bytes that have arrived.
--
-- The retry loops of the TCP and CAN handlers run on four rounds: a fifth is never begun, since the
-- code stops at `tries > 3`. The reply of a Prologix controller is read in one round more than
-- there are bytes to come.
--
-- Words: a number of the code is a native number, and every cast, shift and sum that can wrap is
-- written with its modulus. `usize` does not wrap.
--
-- Not modelled: the handlers of VXI, VISA, HID, FTDI and sigrok devices, which call external
-- libraries; the RPC of the server and of the client, the listings of devices, the task that holds
-- a lock with its timeout, and serialization.
pub mod Base
pub mod Protocol
pub mod Gct
pub mod Cobs
pub mod Stream
pub mod Transport
pub mod ModBus
pub mod Inventory
pub mod ByteStream
pub mod Scpi
pub mod Prologix
pub mod App
pub mod IoTask
pub mod Client
pub mod SerialParams
pub mod Examples
