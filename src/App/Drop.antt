-- ===== src/App/Drop.antt =====
-- Dropping an instrument: the dispatch together with the task of the instrument.
use comsrv.Base.{ℕ, ◌≡◌, refl, ap, ite, ◌∙◌, Option, none, some}
use comsrv.Base.Assoc.{get, get-remove}
use comsrv.Protocol.Error.{Result, ok}
use comsrv.Inventory.{LockableInstrument, wait_for_lock, disconnect}
use comsrv.IoTask.{Actor, IsClosed, Reachable}
use comsrv.IoTask.Laws.{NeverPanics, Reachable-IsClosed}
use comsrv.App.{
  Transport, Environment, InventoryOf, Answer, answered, waits_for, waits_for_closed,
  wait_for_closed, closing, disconnect_free, wait_disconnect, Inventories, tcp, drop_request, done,
}
use comsrv.App.Dispatch.{drop_answer, drop, handle}

module _ {H R P : Type 0} (task_handle : R → H → Option (Result P × H)) where
  -- The tasks of a server by their numbers, each in some state that it can reach.
  abbrev pub IsServed : (ℕ → Actor H R P) → Type 0
  IsServed tasks = (task : ℕ) → (h : H) × Reachable task_handle h (tasks task)

-- The request has its answer, with the tasks in these states and nobody holding a lock.
abbrev pub Returns : {A H R P : Type 0} → (ℕ → Actor H R P) → Answer A → Type 0
Returns tasks (answered ret) = Unit {0}
Returns tasks (waits_for lock_id) = ⊥
Returns tasks (waits_for_closed task) = IsClosed (tasks task)

closing-state :
    (t : Transport) (found : Option (LockableInstrument t.Instr)) (s : InventoryOf t)
    → (closing t (found, s)).1 ≡ s
unfolding closing
closing-state t none s = refl
closing-state t (some li) s = refl

module _ (env : Environment) {H R P : Type 0} (task_handle : R → H → Option (Result P × H)) where
  -- A request to drop a TCP instrument, which does not have to wait for a lock, leaves every other
  -- TCP instrument where it is, and none at this address. It is answered at once if no instrument
  -- is connected there. If one is connected that runs in a task, the request is never answered,
  -- whatever states the tasks of the server reach, if their handlers never panic: it waits for this
  -- task to be closed.
  pub handle-drop_request :
      (id : ℕ) (x : env.tcp.Addr) (lock_id : Option ℕ) (s : Inventories env)
      → NeverPanics task_handle
      → wait_for_lock env.tcp.same x lock_id s.tcp ≡ none
      → ((y : env.tcp.Addr)
          → get env.tcp.same y (handle env id (drop_request (tcp x) lock_id) s).1.tcp.instruments
            ≡ ite (env.tcp.same x y) none (get env.tcp.same y s.tcp.instruments))
        × (get env.tcp.same x s.tcp.instruments ≡ none
            → (handle env id (drop_request (tcp x) lock_id) s).0 ≡ answered (ok done))
        × ((li : LockableInstrument env.tcp.Instr) (task : ℕ) (tasks : ℕ → Actor H R P)
            → get env.tcp.same x s.tcp.instruments ≡ some li
            → env.tcp.task_of li.instr ≡ some task
            → IsServed task_handle tasks
            → ¬ Returns tasks (handle env id (drop_request (tcp x) lock_id) s).0)
  unfolding handle drop drop_answer wait_disconnect disconnect_free closing wait_for_closed
      disconnect
  handle-drop_request id x lock_id s never free = (
    λ y. rw free (
        ap (λ (inv : InventoryOf env.tcp). get env.tcp.same y inv.instruments)
          (closing-state env.tcp (get env.tcp.same x s.tcp.instruments)
            (disconnect env.tcp.same x s.tcp).1)
        ∙ get-remove env.tcp.same x y s.tcp.instruments),
    λ e. rw (free, e) refl,
    λ li task tasks e t served.
        rw (free, e, t)
          (Reachable-IsClosed task_handle (served task).0 (tasks task) never (served task).1),
  )
