-- ===== src/App/Dispatch.antt =====
-- `App::handle` of comsrv/src/app.rs: a request goes to the inventory of its instrument.
use comsrv.Base.{ℕ, List, ◌++◌, map, Option}
use comsrv.Protocol.Error.{Result, ok, err, internal_error, ◌>>=◌}
use comsrv.SerialParams.{SerialPortConfig, try_into}
use comsrv.Inventory.{list, disconnect_all, unlock}
use comsrv.Transport.Serial.{FlowControl}
use comsrv.Transport.Serial
use comsrv.Transport.Tcp.{TcpRequest, TcpResponse, nope}
use comsrv.App.{
  Environment, Answer, answered, waits_for, waits_for_closed, wait_connect, wait_and_lock,
  wait_disconnect, Inventories, Address, tcp, ftdi, hid, serial, vxi, visa, can, Request,
  bytes_ftdi, bytes_serial, bytes_tcp, cobs_ftdi, cobs_serial, cobs_tcp, can_request, scpi_visa,
  scpi_vxi, prologix, hid_request, serial_request, list_connected_instruments, lock_request,
  unlock_request, drop_request, drop_all_request, shutdown, Response, instruments, scpi, bytes,
  cobs_stream, can_response, locked, hid_response, serial_response, done,
}

module _ (env : Environment) where
  abbrev pub Answered : Type 0
  Answered = Answer (Response env) × Inventories env

  unfoldable pub bytes_of_serial : Serial.Response → Result (Response env)
  bytes_of_serial (Serial.Response.bytes x) = ok (bytes x)
  bytes_of_serial (Serial.Response.scpi x) = err internal_error
  bytes_of_serial (Serial.Response.serial x) = err internal_error
  bytes_of_serial Serial.Response.cobs = err internal_error
  bytes_of_serial Serial.Response.done = err internal_error

  unfoldable pub scpi_of_serial : Serial.Response → Result (Response env)
  scpi_of_serial (Serial.Response.scpi x) = ok (scpi x)
  scpi_of_serial (Serial.Response.bytes x) = err internal_error
  scpi_of_serial (Serial.Response.serial x) = err internal_error
  scpi_of_serial Serial.Response.cobs = err internal_error
  scpi_of_serial Serial.Response.done = err internal_error

  unfoldable pub pins_of_serial : Serial.Response → Result (Response env)
  pins_of_serial (Serial.Response.serial x) = ok (serial_response x)
  pins_of_serial (Serial.Response.scpi x) = err internal_error
  pins_of_serial (Serial.Response.bytes x) = err internal_error
  pins_of_serial Serial.Response.cobs = err internal_error
  pins_of_serial Serial.Response.done = err internal_error

  unfoldable pub cobs_of_serial : Serial.Response → Result (Response env)
  cobs_of_serial Serial.Response.cobs = ok cobs_stream
  cobs_of_serial (Serial.Response.serial x) = err internal_error
  cobs_of_serial (Serial.Response.scpi x) = err internal_error
  cobs_of_serial (Serial.Response.bytes x) = err internal_error
  cobs_of_serial Serial.Response.done = err internal_error

  unfoldable pub bytes_of_tcp : TcpResponse → Result (Response env)
  bytes_of_tcp (TcpResponse.bytes x) = ok (bytes x)
  bytes_of_tcp TcpResponse.cobs = err internal_error
  bytes_of_tcp nope = err internal_error

  unfoldable pub cobs_of_tcp : TcpResponse → Result (Response env)
  cobs_of_tcp TcpResponse.cobs = ok cobs_stream
  cobs_of_tcp (TcpResponse.bytes x) = err internal_error
  cobs_of_tcp nope = err internal_error

  -- With the parameters of the port, which are made after the instrument was connected.
  unfoldable pub with_params :
      SerialPortConfig FlowControl
      → (Serial.Params → Result Serial.Response)
      → (Serial.Response → Result (Response env))
      → Result (Response env)
  with_params config call response =
      try_into config >>= λ params. call params >>= λ ret. response ret

  -- The inventory of serial ports, and so for each of the others.
  unfoldable pub on_serial :
      env.serial.Addr
      → Option ℕ
      → (env.serial.Instr → Result (Response env))
      → Inventories env
      → Answered
  on_serial addr lock_id use_instr s =
      let (ret, inv) = wait_connect env.serial addr lock_id use_instr s.serial in
      (ret, record s { serial = inv })

  unfoldable pub on_can :
      env.can.Addr → Option ℕ → (env.can.Instr → Result (Response env)) → Inventories env → Answered
  on_can addr lock_id use_instr s =
      let (ret, inv) = wait_connect env.can addr lock_id use_instr s.can in
      (ret, record s { can = inv })

  unfoldable pub on_ftdi :
      env.ftdi.Addr
      → Option ℕ
      → (env.ftdi.Instr → Result (Response env))
      → Inventories env
      → Answered
  on_ftdi addr lock_id use_instr s =
      let (ret, inv) = wait_connect env.ftdi addr lock_id use_instr s.ftdi in
      (ret, record s { ftdi = inv })

  unfoldable pub on_tcp :
      env.tcp.Addr → Option ℕ → (env.tcp.Instr → Result (Response env)) → Inventories env → Answered
  on_tcp addr lock_id use_instr s =
      let (ret, inv) = wait_connect env.tcp addr lock_id use_instr s.tcp in
      (ret, record s { tcp = inv })

  unfoldable pub on_visa :
      env.visa.Addr
      → Option ℕ
      → (env.visa.Instr → Result (Response env))
      → Inventories env
      → Answered
  on_visa addr lock_id use_instr s =
      let (ret, inv) = wait_connect env.visa addr lock_id use_instr s.visa in
      (ret, record s { visa = inv })

  unfoldable pub on_vxi :
      env.vxi.Addr → Option ℕ → (env.vxi.Instr → Result (Response env)) → Inventories env → Answered
  on_vxi addr lock_id use_instr s =
      let (ret, inv) = wait_connect env.vxi addr lock_id use_instr s.vxi in
      (ret, record s { vxi = inv })

  unfoldable pub on_hid :
      env.hid.Addr → Option ℕ → (env.hid.Instr → Result (Response env)) → Inventories env → Answered
  on_hid addr lock_id use_instr s =
      let (ret, inv) = wait_connect env.hid addr lock_id use_instr s.hid in
      (ret, record s { hid = inv })

  unfoldable pub lock_answer : Answer ℕ → Answer (Response env)
  lock_answer (answered (ok lock_id)) = answered (ok (locked lock_id))
  lock_answer (answered (err e)) = answered (err e)
  lock_answer (waits_for held) = waits_for held
  lock_answer (waits_for_closed task) = waits_for_closed task

  -- `lock`, for the new id.
  unfoldable pub lock : ℕ → Address env → Inventories env → Answered
  unfolding lock_answer
  lock id (tcp x) s =
      let (ret, inv) = wait_and_lock env.tcp id x s.tcp in (lock_answer ret, record s { tcp = inv })
  lock id (ftdi x) s =
      let (ret, inv) = wait_and_lock env.ftdi id x s.ftdi in
      (lock_answer ret, record s { ftdi = inv })
  lock id (hid x) s =
      let (ret, inv) = wait_and_lock env.hid id x s.hid in (lock_answer ret, record s { hid = inv })
  lock id (serial x) s =
      let (ret, inv) = wait_and_lock env.serial id x s.serial in
      (lock_answer ret, record s { serial = inv })
  lock id (vxi x) s =
      let (ret, inv) = wait_and_lock env.vxi id x s.vxi in (lock_answer ret, record s { vxi = inv })
  lock id (visa x) s =
      let (ret, inv) = wait_and_lock env.visa id x s.visa in
      (lock_answer ret, record s { visa = inv })
  lock id (can x) s =
      let (ret, inv) = wait_and_lock env.can id x s.can in (lock_answer ret, record s { can = inv })

  -- `unlock`: of the address only the kind is looked at.
  unfoldable pub unlocked : Address env → ℕ → Inventories env → Inventories env
  unlocked (tcp x) id s = record s { tcp = unlock env.tcp.same id s.tcp }
  unlocked (ftdi x) id s = record s { ftdi = unlock env.ftdi.same id s.ftdi }
  unlocked (hid x) id s = record s { hid = unlock env.hid.same id s.hid }
  unlocked (serial x) id s = record s { serial = unlock env.serial.same id s.serial }
  unlocked (vxi x) id s = record s { vxi = unlock env.vxi.same id s.vxi }
  unlocked (visa x) id s = record s { visa = unlock env.visa.same id s.visa }
  unlocked (can x) id s = record s { can = unlock env.can.same id s.can }

  -- No instrument is awaited, since each map is cleared before it is drained.
  unfoldable pub drop_all : Inventories env → Inventories env
  drop_all s = record {
    serial = disconnect_all s.serial;
    can = disconnect_all s.can;
    ftdi = disconnect_all s.ftdi;
    tcp = disconnect_all s.tcp;
    visa = disconnect_all s.visa;
    vxi = disconnect_all s.vxi;
    hid = disconnect_all s.hid;
  }

  unfoldable pub connected : Inventories env → List (Address env)
  connected s =
      map tcp (list s.tcp)
      ++ (map can (list s.can)
          ++ (map ftdi (list s.ftdi)
              ++ (map vxi (list s.vxi)
                  ++ (map hid (list s.hid)
                      ++ (map serial (list s.serial) ++ map visa (list s.visa))))))

  unfoldable pub drop_answer : Answer (Unit {0}) → Answer (Response env)
  drop_answer (answered (ok a)) = answered (ok done)
  drop_answer (answered (err e)) = answered (err e)
  drop_answer (waits_for held) = waits_for held
  drop_answer (waits_for_closed task) = waits_for_closed task

  unfoldable pub drop : Address env → Option ℕ → Inventories env → Answered
  unfolding drop_answer
  drop (tcp x) id s =
      let (ret, inv) = wait_disconnect env.tcp x id s.tcp in
      (drop_answer ret, record s { tcp = inv })
  drop (ftdi x) id s =
      let (ret, inv) = wait_disconnect env.ftdi x id s.ftdi in
      (drop_answer ret, record s { ftdi = inv })
  drop (hid x) id s =
      let (ret, inv) = wait_disconnect env.hid x id s.hid in
      (drop_answer ret, record s { hid = inv })
  drop (serial x) id s =
      let (ret, inv) = wait_disconnect env.serial x id s.serial in
      (drop_answer ret, record s { serial = inv })
  drop (vxi x) id s =
      let (ret, inv) = wait_disconnect env.vxi x id s.vxi in
      (drop_answer ret, record s { vxi = inv })
  drop (visa x) id s =
      let (ret, inv) = wait_disconnect env.visa x id s.visa in
      (drop_answer ret, record s { visa = inv })
  drop (can x) id s =
      let (ret, inv) = wait_disconnect env.can x id s.can in
      (drop_answer ret, record s { can = inv })

  -- `handle`, with the id for a new lock.
  unfoldable pub handle : (id : ℕ) → Request env → Inventories env → Answered
  unfolding on_serial on_can on_ftdi on_tcp on_visa on_vxi on_hid with_params bytes_of_serial
      scpi_of_serial pins_of_serial cobs_of_serial bytes_of_tcp cobs_of_tcp lock unlocked drop_all
      connected drop
  handle id (bytes_ftdi addr req lock_id) =
      on_ftdi addr lock_id (λ i. env.call_ftdi i req >>= λ ret. ok (bytes ret))
  handle id (bytes_serial addr config req lock_id) = on_serial addr lock_id (λ i.
      with_params config (λ p. env.call_serial i (Serial.Request.bytes p req)) bytes_of_serial)
  handle id (bytes_tcp addr opts req lock_id) =
      on_tcp addr lock_id (λ i. env.call_tcp i (TcpRequest.bytes req opts) >>= bytes_of_tcp)
  handle id (cobs_ftdi addr req lock_id) = λ s. (answered (err internal_error), s)
  handle id (cobs_serial addr config req lock_id) =
      on_serial addr lock_id (λ i.
        with_params config (λ p. env.call_serial i (Serial.Request.cobs p req)) cobs_of_serial)
  handle id (cobs_tcp addr opts req lock_id) =
      on_tcp addr lock_id (λ i. env.call_tcp i (TcpRequest.cobs req opts) >>= cobs_of_tcp)
  handle id (can_request instr req lock_id) = on_can (env.can_source instr) lock_id (λ i.
      env.call_can i (record { inner = req; instrument = instr }) >>= λ ret.
      ok (can_response (env.can_source instr) ret))
  handle id (scpi_visa addr req lock_id) =
      on_visa addr lock_id (λ i. env.call_visa i req >>= λ ret. ok (scpi ret))
  handle id (scpi_vxi addr req lock_id) =
      on_vxi addr lock_id (λ i. env.call_vxi i req >>= λ ret. ok (scpi ret))
  handle id (prologix addr gpib_addr req lock_id) =
      on_serial addr lock_id
        (λ i. env.call_serial i (Serial.Request.prologix gpib_addr req) >>= scpi_of_serial)
  handle id (hid_request addr req lock_id) =
      on_hid addr lock_id (λ i. env.call_hid i req >>= λ ret. ok (hid_response ret))
  handle id (serial_request addr config req lock_id) = on_serial addr lock_id (λ i.
      with_params config (λ p. env.call_serial i (Serial.Request.serial p req)) pins_of_serial)
  handle id list_connected_instruments = λ s. (answered (ok (instruments (connected s))), s)
  handle id (lock_request addr) = lock id addr
  handle id (unlock_request addr lock_id) = λ s. (answered (ok done), unlocked addr lock_id s)
  handle id (drop_request addr lock_id) = drop addr lock_id
  handle id drop_all_request = λ s. (answered (ok done), drop_all s)
  handle id shutdown = λ s. (answered (ok done), s)
