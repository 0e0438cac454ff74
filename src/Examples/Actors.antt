-- ===== src/Examples/Actors.antt =====
-- The task of an instrument, the server's dispatch, and the table of locks.
use comsrv.Base.{ite, ℕ, ◌+◌, List, ◌≡◌, ◌≢◌, refl, true, [], ◌∷◌, Option, none, some, ℕ_discrete}
use comsrv.Base.Assoc.{get}
use comsrv.Protocol.Error.{Result, ok}
use comsrv.Protocol.Can as CanMessages
use comsrv.Protocol.Scpi.{ScpiRequest, ScpiResponse}
use comsrv.Protocol.Scpi
use comsrv.ByteStream.{ByteStreamRequest, ByteStreamResponse}
use comsrv.ByteStream
use comsrv.IoTask as Task
use comsrv.IoTask.{Actor, IsClosed}
use comsrv.IoTask.Laws.{tasks, round_times, Reachable-IsClosed, round_times-replay}
use comsrv.Inventory as Store
use comsrv.Inventory.{Inventory, LockableInstrument, wait_for_lock, lock_of}
use comsrv.Inventory.Refinement.{
  Operation, view, run_all, opens, table_run_all, empty_table, table_wait, run_all-view,
}
use comsrv.Transport.Serial as Serial
use comsrv.Transport.Tcp as Tcp
use comsrv.App.{
  Transport, Environment, answered, waits_for, Inventories, tcp, bytes_tcp, lock_request,
  unlock_request, drop_request, locked, done,
}
use comsrv.App.Dispatch.{handle}
use comsrv.App.Laws.{IsAnswered, locked_tcp, handle-lock_request}
use comsrv.App.Drop.{IsServed, Returns, handle-drop_request}

-- A handler that adds up.
abbrev add_up : ℕ → ℕ → Option (Result ℕ × ℕ)
add_up n sum = some (ok (sum + n), sum + n)

add_up-some : (n sum : ℕ) → add_up n sum ≢ none
add_up-some n sum e = cc

abbrev fresh_task : Actor ℕ ℕ ℕ
fresh_task = Task.new 0

-- Its only handle is dropped, and it runs a round.
Reachable-IsClosed_example : ¬ IsClosed (Task.round add_up (Task.drop_handle fresh_task))
Reachable-IsClosed_example =
    Reachable-IsClosed add_up 0 (Task.round add_up (Task.drop_handle fresh_task)) add_up-some (
      Task.step (Task.drop_handle fresh_task) (Task.round add_up (Task.drop_handle fresh_task))
        (Task.step fresh_task (Task.drop_handle fresh_task) Task.start (Task.drops fresh_task))
        (Task.rounds (Task.drop_handle fresh_task)))

abbrev two_tasks : Actor ℕ ℕ ℕ
two_tasks = record {
  handler = 10;
  queue = tasks add_up ((1, 5) ∷ (2, 7) ∷ []);
  handles = 1;
  running = true;
  answers = [];
}

round_times-replay_example : (round_times add_up 2 two_tasks).answers ≡ (1, ok 15) ∷ (2, ok 22) ∷ []
round_times-replay_example =
    round_times-replay add_up ((1, 5) ∷ (2, 7) ∷ []) two_tasks add_up-some refl refl

abbrev open_number : ℕ → Result ℕ
open_number addr = ok (addr + 100)

-- An instrument is locked twice and unlocked with the first id, another one only connected.
abbrev some_operations : List (Operation ℕ)
some_operations =
    Operation.connects 8
    ∷ Operation.locks 1 7
    ∷ Operation.locks 2 7
    ∷ Operation.unlocks 1
    ∷ Operation.disconnects 8
    ∷ []

run_all-view_example :
    (view ℕ_discrete (run_all ℕ_discrete open_number some_operations Store.new)
      ≡ table_run_all ℕ_discrete (opens ℕ_discrete open_number) some_operations empty_table)
    × ((addr : ℕ) (lock_id : Option ℕ)
        → wait_for_lock ℕ_discrete addr lock_id
            (run_all ℕ_discrete open_number some_operations Store.new)
          ≡ table_wait lock_id (
              (table_run_all ℕ_discrete
                  (opens ℕ_discrete open_number)
                  some_operations
                  empty_table).at
                addr))
run_all-view_example = run_all-view ℕ_discrete open_number some_operations

-- Addresses and instruments are numbers, and every call is answered.
abbrev numbered : Transport
numbered = record {
  Addr = ℕ;
  Instr = ℕ;
  same = ℕ_discrete;
  open_instrument = open_number;
  task_of = some;
}

abbrev bench : Environment
bench = record {
  serial = numbered;
  can = numbered;
  ftdi = numbered;
  tcp = numbered;
  visa = numbered;
  vxi = numbered;
  hid = numbered;
  HidRequest = ℕ;
  HidResponse = ℕ;
  can_source = λ instr. 0;
  call_serial = λ i req. ok Serial.Response.done;
  call_can = λ i req. ok CanMessages.CanResponse.done;
  call_ftdi = λ i req. ok ByteStream.done;
  call_tcp = λ i req. ok (Tcp.TcpResponse.bytes ByteStream.done);
  call_visa = λ i req. ok Scpi.done;
  call_vxi = λ i req. ok Scpi.done;
  call_hid = λ i req. ok 0;
}

abbrev nothing_open : Inventories bench
nothing_open = record {
  serial = Store.new;
  can = Store.new;
  ftdi = Store.new;
  tcp = Store.new;
  visa = Store.new;
  vxi = Store.new;
  hid = Store.new;
}

-- TCP instrument 7 is locked with the id 1, and unlocked at the address 8.
handle-lock_request_example :
    (handle bench 1 (lock_request (tcp 7)) nothing_open
      ≡ (answered (ok (locked 1)), locked_tcp bench 1 7 nothing_open))
    × ((lock_id : Option ℕ)
        → lock_id ≢ some 1
        → handle bench 2
            (bytes_tcp 7 none ByteStreamRequest.read_all lock_id)
            (locked_tcp bench 1 7 nothing_open)
          ≡ (waits_for 1, locked_tcp bench 1 7 nothing_open))
    × IsAnswered (
        handle bench 2
          (bytes_tcp 7 none ByteStreamRequest.read_all (some 1))
          (locked_tcp bench 1 7 nothing_open))
    × ((lock_id : Option ℕ)
        → IsAnswered (
            handle bench 2
              (bytes_tcp 7 none ByteStreamRequest.read_all lock_id)
              (handle bench 2 (unlock_request (tcp 8) 1) (locked_tcp bench 1 7 nothing_open)).1))
unfolding Store.new Store.lock wait_for_lock lock_of get
handle-lock_request_example =
    handle-lock_request bench 1 2 7 8 none ByteStreamRequest.read_all nothing_open refl refl

abbrev one_open : Inventories bench
one_open = record nothing_open {
  tcp = record {
    instruments = (7, record { instr = 107; lock = none }) ∷ [];
    locks = [];
    released = [];
  };
}

-- All tasks have just begun.
abbrev fresh_tasks : ℕ → Actor ℕ ℕ ℕ
fresh_tasks task = fresh_task

handle-drop_request_example :
    ((y : ℕ)
      → get ℕ_discrete y (handle bench 1 (drop_request (tcp 7) none) one_open).1.tcp.instruments
        ≡ ite (ℕ_discrete 7 y) none (get ℕ_discrete y one_open.tcp.instruments))
    × (get ℕ_discrete 7 one_open.tcp.instruments ≡ none
        → (handle bench 1 (drop_request (tcp 7) none) one_open).0 ≡ answered (ok done))
    × ((li : LockableInstrument ℕ) (task : ℕ) (tasks : ℕ → Actor ℕ ℕ ℕ)
        → get ℕ_discrete 7 one_open.tcp.instruments ≡ some li
        → some li.instr ≡ some task
        → IsServed add_up tasks
        → ¬ Returns tasks (handle bench 1 (drop_request (tcp 7) none) one_open).0)
unfolding wait_for_lock lock_of get ℕ_discrete
handle-drop_request_example = handle-drop_request bench add_up 1 7 none one_open add_up-some refl

-- Its task is 107, and is not closed.
still_waits : ¬ Returns fresh_tasks (handle bench 1 (drop_request (tcp 7) none) one_open).0
unfolding get wait_for_lock lock_of ℕ_discrete
still_waits =
    (handle-drop_request bench add_up 1 7 none one_open add_up-some refl).2
      (record { instr = 107; lock = none }) 107 fresh_tasks refl refl (λ task. (0, Task.start))
