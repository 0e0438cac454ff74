-- ===== src/App/Laws.antt =====
-- Locks, drops and the shutdown over the dispatch of the server.
use comsrv.Base.{ℕ, ◌≡◌, ◌≢◌, refl, [], Option, none, some}
use comsrv.Base.Assoc.{keys}
use comsrv.Protocol.Error.{Result, ok, err, ◌>>=◌}
use comsrv.ByteStream.{ByteStreamRequest}
use comsrv.Inventory.{list, wait_for_lock, connect, disconnect_all, lock, unlock}
use comsrv.Inventory.Locking.{after_lock, lock-wait_for_lock, unlock-lock}
use comsrv.Transport.Tcp.{TcpOptions, TcpRequest}
use comsrv.App.{
  Transport, Environment, InventoryOf, Answer, answered, waits_for, used, connect_free,
  wait_connect, as_answer, lock_free, wait_and_lock, Inventories, tcp, bytes_tcp, lock_request,
  unlock_request, drop_all_request, shutdown, list_connected_instruments, locked, done, instruments,
}
use comsrv.App.Dispatch.{
  on_tcp, lock_answer, lock as lock_address, unlocked, drop_all, connected, handle, bytes_of_tcp,
}

-- The request does not wait.
abbrev pub IsAnswered {ℓ} : {A : Type 0} {S : Type ℓ} → Answer A × S → Type 0
IsAnswered {A} x = (ret : Result A) × (x.0 ≡ answered ret)

module _ (t : Transport) where
  used-IsAnswered :
      {A : Type 0} (f : t.Instr → Result A) (x : Result t.Instr) (s : InventoryOf t)
      → IsAnswered (used t f (x, s))
  unfolding used
  used-IsAnswered f (ok instr) s = (f instr, refl)
  used-IsAnswered f (err e) s = (err e, refl)

  free-IsAnswered :
      {A : Type 0} (addr : t.Addr) (lock_id : Option ℕ) (f : t.Instr → Result A) (s : InventoryOf t)
      → wait_for_lock t.same addr lock_id s ≡ none
      → IsAnswered (wait_connect t addr lock_id f s)
  unfolding wait_connect connect_free
  free-IsAnswered addr lock_id f s e =
      let found = connect t.same t.open_instrument addr s in
      rw e (used-IsAnswered f found.0 found.1)

module _ (env : Environment) where
  tcp-IsAnswered :
      (n : ℕ) (x : env.tcp.Addr) (opts : Option TcpOptions) (req : ByteStreamRequest)
      (lock_id : Option ℕ) (s : Inventories env)
      → wait_for_lock env.tcp.same x lock_id s.tcp ≡ none
      → IsAnswered (handle env n (bytes_tcp x opts req lock_id) s)
  unfolding handle on_tcp
  tcp-IsAnswered n x opts req lock_id s e =
      free-IsAnswered env.tcp x lock_id
        (λ i. env.call_tcp i (TcpRequest.bytes req opts) >>= bytes_of_tcp env) s.tcp e

  abbrev pub locked_tcp : ℕ → env.tcp.Addr → Inventories env → Inventories env
  locked_tcp id x s = record s { tcp = after_lock env.tcp.same env.tcp.open_instrument id x s.tcp }

  -- Let a TCP instrument be free, and let it open if it has to. A request to lock it is answered with
  -- the new id. In the state after it, a byte stream request for the instrument with another id, or
  -- with none, waits for this lock and changes nothing, and one with the id does not wait. In the
  -- state after a request to unlock it, at any TCP address, a byte stream request for it does not
  -- wait, with any id or none. The end of a lock by its timeout is left out.
  pub handle-lock_request :
      (id n : ℕ) (x y : env.tcp.Addr) (opts : Option TcpOptions) (req : ByteStreamRequest)
      (s : Inventories env)
      → wait_for_lock env.tcp.same x none s.tcp ≡ none
      → (lock env.tcp.same env.tcp.open_instrument id x s.tcp).0 ≡ ok id
      → (handle env id (lock_request (tcp x)) s ≡ (answered (ok (locked id)), locked_tcp id x s))
        × ((lock_id : Option ℕ)
            → lock_id ≢ some id
            → handle env n (bytes_tcp x opts req lock_id) (locked_tcp id x s)
              ≡ (waits_for id, locked_tcp id x s))
        × IsAnswered (handle env n (bytes_tcp x opts req (some id)) (locked_tcp id x s))
        × ((lock_id : Option ℕ)
            → IsAnswered (
                handle env n
                  (bytes_tcp x opts req lock_id)
                  (handle env n (unlock_request (tcp y) id) (locked_tcp id x s)).1))
  unfolding handle lock_address lock_answer wait_and_lock lock_free as_answer on_tcp wait_connect
      connect_free unlocked
  handle-lock_request id n x y opts req s free e =
      let (mine, others, rest) =
        lock-wait_for_lock env.tcp.same env.tcp.open_instrument id x s.tcp e in
      (
        rw (free, e) refl,
        λ lock_id d. rw (others lock_id d) refl,
        tcp-IsAnswered n x opts req (some id) (locked_tcp id x s) mine,
        λ lock_id.
            tcp-IsAnswered n x opts req lock_id
              (record (locked_tcp id x s) { tcp = unlock env.tcp.same id (locked_tcp id x s).tcp })
              (unlock-lock env.tcp.same env.tcp.open_instrument id x lock_id s.tcp e),
      )

  -- `Shutdown` is answered and leaves every instrument connected; `DropAll` leaves none.
  pub handle_shutdown :
      (id : ℕ) (s : Inventories env)
      → (handle env id shutdown s ≡ (answered (ok done), s))
        × (handle env id list_connected_instruments (handle env id drop_all_request s).1
            ≡ (answered (ok (instruments [])), (handle env id drop_all_request s).1))
  unfolding handle drop_all connected list keys disconnect_all
  handle_shutdown id s = (refl, refl)
