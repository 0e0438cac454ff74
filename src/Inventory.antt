-- ===== src/Inventory.antt =====
-- comsrv/src/inventory.rs: the instruments and their locks. An instrument, its address and the
-- function that opens it are parameters; a lock's id is a number. The parts of the methods under
-- the mutex of `Inventory` are functions on its content.
pub mod Laws
pub mod Locking
pub mod Refinement
use comsrv.Base.{ℕ, ◌≡◌, List, [], ◌∷◌, Option, none, some, ◌==◌, if◌then◌else◌, map, ℕ_discrete}
use comsrv.Base.Assoc.{get, remove, insert, keys}
use comsrv.Protocol.Error.{Result, ok, err}

pub record LockableInstrument (I : Type 0) : Type 0 where
  pub instr : I
  pub lock : Option ℕ

-- `InventoryShared`, and the locks that were sent `unlock`, the last one first.
pub record Inventory (K I : Type 0) : Type 0 where
  pub instruments : List (K × LockableInstrument I)
  pub locks : List (ℕ × K)
  pub released : List ℕ

unfoldable pub new : {K I : Type 0} → Inventory K I
new = record { instruments = []; locks = []; released = [] }

-- `Lock::release`
unfoldable pub release : {K I : Type 0} → Option ℕ → Inventory K I → Inventory K I
release none s = s
release (some id) s = record s { released = id ∷ s.released }

unfoldable pub disconnect_all : {K I : Type 0} → Inventory K I → Inventory K I
disconnect_all s = record s { instruments = [] }

unfoldable pub list : {K I : Type 0} → Inventory K I → List K
list s = keys s.instruments

unfoldable pub lock_of : {I : Type 0} → Option (LockableInstrument I) → Option ℕ
lock_of none = none
lock_of (some instr) = instr.lock

module _ {K I : Type 0} (same : Discrete K) where
  unfoldable pub add : K → Option ℕ → Result I → Inventory K I → Result I × Inventory K I
  add addr lock (ok instr) s = (
    ok instr,
    record s {
      instruments = insert same addr (record { instr = instr; lock = lock }) s.instruments;
    },
  )
  add addr lock (err e) s = (err e, s)

  -- The instrument that is awaited until it is closed, if there is one.
  unfoldable pub disconnect : K → Inventory K I → Option (LockableInstrument I) × Inventory K I
  disconnect addr s =
      (get same addr s.instruments, record s { instruments = remove same addr s.instruments })

  -- The lock whose mutex has to be awaited, if there is one.
  unfoldable pub wait_for_lock : K → Option ℕ → Inventory K I → Option ℕ
  unfolding lock_of
  wait_for_lock addr lock_id s = elim (lock_of (get same addr s.instruments)) [
    | none ↦ none
    | some id ↦ elim lock_id [ none ↦ some id | some mine ↦ if id == mine then none else some id ]
  ]

  unfoldable pub take_found :
      K → Option (LockableInstrument I) → Inventory K I → Option ℕ × Inventory K I
  take_found addr none s = (none, s)
  take_found addr (some li) s = (
    li.lock,
    record s { instruments = insert same addr (record li { lock = none }) s.instruments },
  )

  -- `x.lock.take()` for the instrument at an address.
  unfoldable pub take_lock : Option K → Inventory K I → Option ℕ × Inventory K I
  unfolding take_found
  take_lock none s = (none, s)
  take_lock (some addr) s = take_found addr (get same addr s.instruments) s

  unfoldable pub unlock : ℕ → Inventory K I → Inventory K I
  unfolding take_lock release
  unlock id s =
      let (taken, s') =
        take_lock (get ℕ_discrete id s.locks) (record s { locks = remove ℕ_discrete id s.locks }) in
      release taken s'

  -- The lock of an instrument is registered for its address.
  abbrev pub IsConsistent : Inventory K I → Type 0
  IsConsistent s =
      (addr : K) (id : ℕ)
      → lock_of (get same addr s.instruments) ≡ some id
      → get ℕ_discrete id s.locks ≡ some addr

unfoldable pub register :
    {K I : Type 0} → ℕ → K → Result I × Inventory K I → Result ℕ × Inventory K I
register id addr (ok instr, s) = (ok id, record s { locks = insert ℕ_discrete id addr s.locks })
register id addr (err e, s) = (err e, s)

module _ {K I : Type 0} (same : Discrete K) (open_instrument : K → Result I) where
  unfoldable pub connect_found :
      K → Option (LockableInstrument I) → Inventory K I → Result I × Inventory K I
  unfolding add
  connect_found addr none s = add same addr none (open_instrument addr) s
  connect_found addr (some li) s = (ok li.instr, s)

  unfoldable pub connect : K → Inventory K I → Result I × Inventory K I
  unfolding connect_found
  connect addr s = connect_found addr (get same addr s.instruments) s

  unfoldable pub lock_found :
      ℕ → K → Option (LockableInstrument I) → Inventory K I → Result ℕ × Inventory K I
  unfolding register add release
  lock_found id addr none s = register id addr (add same addr (some id) (open_instrument addr) s)
  lock_found id addr (some li) s =
      register id addr (add same addr (some id) (ok li.instr) (release li.lock s))

  -- `lock` up to the task it spawns, for the new id `id`.
  unfoldable pub lock : ℕ → K → Inventory K I → Result ℕ × Inventory K I
  unfolding lock_found
  lock id addr s = lock_found id addr (get same addr s.instruments) s

  -- What the tasks of a server do, in any order. The ids of `Uuid::new_v4` are new.
  pub data Step : Inventory K I → Inventory K I → Type 0 where
    connects : (addr : K) (s : Inventory K I) → Step s (connect addr s).1
    disconnects : (addr : K) (s : Inventory K I) → Step s (disconnect same addr s).1
    disconnects_all : (s : Inventory K I) → Step s (disconnect_all s)
    locks :
        (id : ℕ) (addr : K) (s : Inventory K I)
        → get ℕ_discrete id s.locks ≡ none
        → Step s (lock id addr s).1
    unlocks : (id : ℕ) (s : Inventory K I) → Step s (unlock same id s)

  pub data Reachable : Inventory K I → Type 0 where
    start : Reachable new
    step : (s s' : Inventory K I) → Reachable s → Step s s' → Reachable s'
