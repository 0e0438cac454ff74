-- ===== src/Inventory/Locking.antt =====
-- What a lock is good for, and what a second lock on an instrument does to it.
use comsrv.Base.{ℕ, Option, none, some, ◌≡◌, ◌≢◌, ap, ◌∙◌, arith, ℕ_discrete, ite}
use comsrv.Base.Assoc.{get, get-insert}
use comsrv.Protocol.Error.{Result, ok, err}
use comsrv.Inventory.{
  LockableInstrument, Inventory, release, lock_of, add, wait_for_lock, register, lock, lock_found,
  unlock, IsConsistent,
}
use comsrv.Inventory.Laws.{unlock-lock_of, lookup-insert, release-shared}

module _ {K I : Type 0} (same : Discrete K) where
  -- The lock at an address.
  abbrev pub lock_at : K → Inventory K I → Option ℕ
  lock_at addr s = lock_of (get same addr s.instruments)

  -- Without a lock nobody waits.
  free :
      (addr : K) (lock_id : Option ℕ) (s : Inventory K I)
      → lock_at addr s ≡ none
      → wait_for_lock same addr lock_id s ≡ none
  unfolding wait_for_lock
  free addr lock_id s e = ground arith

  mine :
      (addr : K) (id : ℕ) (s : Inventory K I)
      → lock_at addr s ≡ some id
      → wait_for_lock same addr (some id) s ≡ none
  unfolding wait_for_lock
  mine addr id s e = ground arith

  others :
      (addr : K) (id : ℕ) (lock_id : Option ℕ) (s : Inventory K I)
      → lock_at addr s ≡ some id
      → lock_id ≢ some id
      → wait_for_lock same addr lock_id s ≡ some id
  unfolding wait_for_lock
  others addr id lock_id s e d = ground arith

  -- The instrument at `addr` has the lock `id`, the others what they had.
  abbrev Locked : ℕ → K → Inventory K I → Inventory K I → Type 0
  Locked id addr s s' =
      (get ℕ_discrete id s'.locks ≡ some addr)
      × ((a : K) → lock_at a s' ≡ ite (same addr a) (some id) (lock_at a s))
      × ((i : ℕ)
          → get ℕ_discrete i s'.locks
            ≡ ite (ℕ_discrete id i) (some addr) (get ℕ_discrete i s.locks))

  registered :
      (id : ℕ) (addr : K) (opened : Result I) (s : Inventory K I)
      → (register id addr (add same addr (some id) opened s)).0 ≡ ok id
      → Locked id addr s (register id addr (add same addr (some id) opened s)).1
  unfolding add register
  registered id addr (err e) s eq = absurd (ground arith)
  registered id addr (ok i) s eq = (
    ground (arith, get-insert ℕ_discrete id id addr s.locks),
    λ a. lookup-insert same addr (record { instr = i; lock = some id }) s a,
    λ j. get-insert ℕ_discrete id j addr s.locks,
  )

  unlocked :
      (id : ℕ) (addr : K) (s : Inventory K I)
      → get ℕ_discrete id s.locks ≡ some addr
      → lock_at addr (unlock same id s) ≡ none
  unlocked id addr s e = ground (arith, unlock-lock_of same id s addr)

  -- An id that is not registered unlocks nothing.
  pub unlock-unknown :
      (id : ℕ) (addr : K) (s : Inventory K I)
      → get ℕ_discrete id s.locks ≡ none
      → lock_at addr (unlock same id s) ≡ lock_at addr s
  unlock-unknown id addr s e = ground (arith, unlock-lock_of same id s addr)

module _ {K I : Type 0} (same : Discrete K) (open_instrument : K → Result I) where
  abbrev pub after_lock : ℕ → K → Inventory K I → Inventory K I
  after_lock id addr s = (lock same open_instrument id addr s).1

  Locked-found :
      (id : ℕ) (addr : K) (found : Option (LockableInstrument I)) (s : Inventory K I)
      → (lock_found same open_instrument id addr found s).0 ≡ ok id
      → Locked same id addr s (lock_found same open_instrument id addr found s).1
  unfolding lock_found
  Locked-found id addr none s e = registered same id addr (open_instrument addr) s e
  Locked-found id addr (some li) s e =
      let (same_instruments, same_locks) = release-shared same li.lock s in
      let (here, at, ids) = registered same id addr (ok li.instr) (release li.lock s) e in
      (
        here,
        λ a. at a ∙ ap (λ m. ite (same addr a) (some id) (lock_of (get same a m))) same_instruments,
        λ i. ids i ∙ ap (λ m. ite (ℕ_discrete id i) (some addr) (get ℕ_discrete i m)) same_locks,
      )

  locked :
      (id : ℕ) (addr : K) (s : Inventory K I)
      → (lock same open_instrument id addr s).0 ≡ ok id
      → Locked same id addr s (after_lock id addr s)
  unfolding lock
  locked id addr s e = Locked-found id addr (get same addr s.instruments) s e

  -- After a lock that succeeds, its owner does not wait for the instrument, a request with
  -- another id or with none waits for this lock, and the locks at the other addresses are what
  -- they were.
  pub lock-wait_for_lock :
      (id : ℕ) (addr : K) (s : Inventory K I)
      → (lock same open_instrument id addr s).0 ≡ ok id
      → (wait_for_lock same addr (some id) (after_lock id addr s) ≡ none)
        × ((lock_id : Option ℕ)
            → lock_id ≢ some id
            → wait_for_lock same addr lock_id (after_lock id addr s) ≡ some id)
        × ((a : K) → a ≢ addr → lock_at same a (after_lock id addr s) ≡ lock_at same a s)
  lock-wait_for_lock id addr s e =
      let (here, at, ids) = locked id addr s e in
      let own : lock_at same addr (after_lock id addr s) ≡ some id = ground (arith, at addr) in
      (
        mine same addr id (after_lock id addr s) own,
        λ lock_id d. others same addr id lock_id (after_lock id addr s) own d,
        λ a d. ground (arith, at a),
      )

  -- After a lock that succeeds and an unlock with its id nobody waits for the instrument, with
  -- any id or none.
  pub unlock-lock :
      (id : ℕ) (addr : K) (lock_id : Option ℕ) (s : Inventory K I)
      → (lock same open_instrument id addr s).0 ≡ ok id
      → wait_for_lock same addr lock_id (unlock same id (after_lock id addr s)) ≡ none
  unlock-lock id addr lock_id s e =
      free same addr lock_id (unlock same id (after_lock id addr s))
        (unlocked same id addr (after_lock id addr s) (locked id addr s e).0)

  -- In a consistent inventory, let an instrument with the lock `old` be locked again, with another
  -- id. The owner of the new lock does not wait for it, a request with any other id or with none,
  -- `old` too, waits for the new lock. But an unlock with the id `old` takes the new lock away:
  -- then no request waits for the instrument, with any id or none.
  pub unlock-replaced :
      (old id : ℕ) (addr : K) (s : Inventory K I)
      → IsConsistent same s
      → lock_at same addr s ≡ some old
      → old ≢ id
      → (lock same open_instrument id addr s).0 ≡ ok id
      → (wait_for_lock same addr (some id) (after_lock id addr s) ≡ none)
        × ((other : Option ℕ)
            → other ≢ some id
            → wait_for_lock same addr other (after_lock id addr s) ≡ some id)
        × ((lock_id : Option ℕ)
            → wait_for_lock same addr lock_id (unlock same old (after_lock id addr s)) ≡ none)
  unlock-replaced old id addr s c before d e =
      let (here, at, ids) = locked id addr s e in
      let registered_old : get ℕ_discrete old (after_lock id addr s).locks ≡ some addr =
        ground (arith, ids old, c addr old before) in
      let (mine, others, rest) = lock-wait_for_lock id addr s e in
      (
        mine,
        others,
        λ lock_id.
            free same addr lock_id (unlock same old (after_lock id addr s))
              (unlocked same old addr (after_lock id addr s) registered_old),
      )
