-- ===== src/Inventory/Laws.antt =====
-- What holds of the inventory in every order of operations, and what a lock is good for.
use comsrv.Base.{
  ℕ, Option, none, some, ◌≡◌, ◌≢◌, ◌⊎◌, refl, ap, subst, ◌∙◌, arith, ℕ_discrete, ite, inl, inr,
}
use comsrv.Base.Assoc.{get, remove, insert, get-remove, get-insert}
use comsrv.Protocol.Error.{Result, ok, err}
use comsrv.Inventory.{
  LockableInstrument, Inventory, new, release, disconnect_all, lock_of, add, connect, disconnect,
  register, lock, take_found, connect_found, lock_found, take_lock, unlock, Step, connects,
  disconnects, disconnects_all, locks, unlocks, Reachable, start, step, IsConsistent,
}

module _ {K I : Type 0} (same : Discrete K) where
  disconnect-IsConsistent :
      (addr : K) (s : Inventory K I)
      → IsConsistent same s
      → IsConsistent same (disconnect same addr s).1
  unfolding disconnect lock_of
  disconnect-IsConsistent addr s h a id e =
      ground (arith, get-remove same addr a s.instruments, h a id)

  take_found-lock_of :
      (addr : K) (found : Option (LockableInstrument I)) (s : Inventory K I) (a : K)
      → get same addr s.instruments ≡ found
      → (addr ≢ a)
          × (lock_of (get same a (take_found same addr found s).1.instruments)
              ≡ lock_of (get same a s.instruments))
        ⊎ (addr ≡ a) × (lock_of (get same a (take_found same addr found s).1.instruments) ≡ none)
  unfolding take_found lock_of
  take_found-lock_of addr none s a e = elim (same addr a) [
    | yes eq ↦ inr (eq, ap lock_of (subst (λ k. get same k s.instruments ≡ none) eq e))
    | no ne ↦ inl (ne, refl)
  ]
  take_found-lock_of addr (some li) s a e =
      ground (arith, get-insert same addr a (record li { lock = none }) s.instruments)

  take_lock-locks :
      (addr : Option K) (s : Inventory K I) → (take_lock same addr s).1.locks ≡ s.locks
  unfolding take_lock take_found
  take_lock-locks none s = refl
  take_lock-locks (some addr) s = ground arith

  -- The lock at the address goes, and no other.
  take_lock-lock_of :
      (addr : Option K) (s : Inventory K I) (a : K)
      → (addr ≢ some a)
          × (lock_of (get same a (take_lock same addr s).1.instruments)
              ≡ lock_of (get same a s.instruments))
        ⊎ (addr ≡ some a) × (lock_of (get same a (take_lock same addr s).1.instruments) ≡ none)
  unfolding take_lock
  take_lock-lock_of none s a = ground arith
  take_lock-lock_of (some addr) s a =
      ground (arith, take_found-lock_of addr (get same addr s.instruments) s a refl)

  pub release-shared :
      (o : Option ℕ) (s : Inventory K I)
      → ((release o s).instruments ≡ s.instruments) × ((release o s).locks ≡ s.locks)
  unfolding release
  release-shared none s = (refl, refl)
  release-shared (some id) s = (refl, refl)

  without : ℕ → Inventory K I → Inventory K I
  without id s = record s { locks = remove ℕ_discrete id s.locks }

  -- `unlock` takes the lock of the instrument that the id is registered for.
  pub unlock-lock_of :
      (id : ℕ) (s : Inventory K I) (a : K)
      → (get ℕ_discrete id s.locks ≢ some a)
          × (lock_of (get same a (unlock same id s).instruments)
              ≡ lock_of (get same a s.instruments))
        ⊎ (get ℕ_discrete id s.locks ≡ some a)
          × (lock_of (get same a (unlock same id s).instruments) ≡ none)
  unfolding unlock without
  unlock-lock_of id s a =
      let taken = take_lock same (get ℕ_discrete id s.locks) (without id s) in
      rw ((release-shared taken.0 taken.1).0)
        (take_lock-lock_of (get ℕ_discrete id s.locks) (without id s) a)

  pub unlock-locks :
      (id : ℕ) (s : Inventory K I) → (unlock same id s).locks ≡ remove ℕ_discrete id s.locks
  unfolding unlock without
  unlock-locks id s =
      let taken = take_lock same (get ℕ_discrete id s.locks) (without id s) in
      (release-shared taken.0 taken.1).1
      ∙ take_lock-locks (get ℕ_discrete id s.locks) (without id s)

  unlock-IsConsistent :
      (id : ℕ) (s : Inventory K I) → IsConsistent same s → IsConsistent same (unlock same id s)
  unlock-IsConsistent id s h a i e =
      rw (unlock-locks id s)
        (ground (arith, get-remove ℕ_discrete id i s.locks, unlock-lock_of id s a, h a i))

  pub lookup-insert :
      (addr : K) (li : LockableInstrument I) (s : Inventory K I) (a : K)
      → lock_of (get same a (insert same addr li s.instruments))
        ≡ ite (same addr a) li.lock (lock_of (get same a s.instruments))
  unfolding lock_of
  lookup-insert addr li s a = ground (arith, get-insert same addr a li s.instruments)

  added :
      (addr : K) (opened : Result I) (s : Inventory K I)
      → IsConsistent same s
      → IsConsistent same (add same addr none opened s).1
  unfolding add
  added addr (err e) s h = h
  added addr (ok i) s h =
      λ a id e. ground (arith, lookup-insert addr (record { instr = i; lock = none }) s a, h a id)

  registered :
      (id : ℕ) (addr : K) (opened : Result I) (s : Inventory K I)
      → IsConsistent same s
      → get ℕ_discrete id s.locks ≡ none
      → IsConsistent same (register id addr (add same addr (some id) opened s)).1
  unfolding add register
  registered id addr (err e) s h fresh = h
  registered id addr (ok i) s h fresh = λ a j e. ground (
    arith,
    lookup-insert addr (record { instr = i; lock = some id }) s a,
    get-insert ℕ_discrete id j addr s.locks,
    h a j,
  )

  released-IsConsistent :
      (o : Option ℕ) (s : Inventory K I) → IsConsistent same s → IsConsistent same (release o s)
  unfolding release
  released-IsConsistent none s h = h
  released-IsConsistent (some id) s h = h

module _ {K I : Type 0} (same : Discrete K) (open_instrument : K → Result I) where
  connect_found-IsConsistent :
      (addr : K) (found : Option (LockableInstrument I)) (s : Inventory K I)
      → IsConsistent same s
      → IsConsistent same (connect_found same open_instrument addr found s).1
  unfolding connect_found
  connect_found-IsConsistent addr (some li) s h = h
  connect_found-IsConsistent addr none s h = added same addr (open_instrument addr) s h

  lock_found-IsConsistent :
      (id : ℕ) (addr : K) (found : Option (LockableInstrument I)) (s : Inventory K I)
      → IsConsistent same s
      → get ℕ_discrete id s.locks ≡ none
      → IsConsistent same (lock_found same open_instrument id addr found s).1
  unfolding lock_found
  lock_found-IsConsistent id addr none s h fresh =
      registered same id addr (open_instrument addr) s h fresh
  lock_found-IsConsistent id addr (some li) s h fresh =
      registered same id addr (ok li.instr) (release li.lock s)
        (released-IsConsistent same li.lock s h)
        ((ap (get ℕ_discrete id) (release-shared same li.lock s).1) ∙ fresh)

  Step-IsConsistent :
      (s s' : Inventory K I)
      → Step same open_instrument s s'
      → IsConsistent same s
      → IsConsistent same s'
  unfolding connect lock disconnect_all lock_of get
  Step-IsConsistent _ _ (connects addr s) h =
      connect_found-IsConsistent addr (get same addr s.instruments) s h
  Step-IsConsistent _ _ (disconnects addr s) h = disconnect-IsConsistent same addr s h
  Step-IsConsistent _ _ (disconnects_all s) h = λ a id e. ground arith
  Step-IsConsistent _ _ (locks id addr s fresh) h =
      lock_found-IsConsistent id addr (get same addr s.instruments) s h fresh
  Step-IsConsistent _ _ (unlocks id s) h = unlock-IsConsistent same id s h

  -- In every state that connects, disconnects, locks with new ids and unlocks can reach, in any
  -- order, the lock of each instrument is registered for the address of that instrument.
  pub Reachable-IsConsistent :
      (s : Inventory K I) → Reachable same open_instrument s → IsConsistent same s
  unfolding new lock_of get
  Reachable-IsConsistent _ start = λ a id e. ground arith
  Reachable-IsConsistent _ (step s s' r t) = Step-IsConsistent s s' t (Reachable-IsConsistent s r)
