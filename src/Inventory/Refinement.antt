-- ===== src/Inventory/Refinement.antt =====
-- The inventory against a table of locks, which knows for each address whether an instrument is
-- connected and which lock it has, and for which address each lock was given. The instruments, the
-- order of the entries and what was released are forgotten.
use comsrv.Base.{
  ℕ, List, [], ◌∷◌, Bool, true, false, if◌then◌else◌, ◌==◌, Option, none, some, ◌≡◌, ◌∙◌, refl, ap,
  sym, fun_ext, arith, ℕ_discrete, ite,
}
use comsrv.Base.Assoc.{get, remove, insert, get-remove, get-insert}
use comsrv.Protocol.Error.{Error, Result, ok, err}
use comsrv.Inventory.{
  LockableInstrument, Inventory, new, release, disconnect_all, lock_of, add, connect, connect_found,
  disconnect, wait_for_lock, lock, lock_found, register, take_found, take_lock, unlock,
}
use comsrv.Inventory.Laws.{release-shared, unlock-locks}

-- `at` tells the lock of a connected instrument.
pub record LockTable (K : Type 0) : Type 0 where
  pub at : K → Option (Option ℕ)
  pub home : ℕ → Option K

pub data Operation (K : Type 0) : Type 0 where
  connects : K → Operation K
  disconnects : K → Operation K
  disconnects_all : Operation K
  locks : (id : ℕ) → K → Operation K
  unlocks : (id : ℕ) → Operation K

abbrev connected : (opens : Bool) → Option (Option ℕ) → Option (Option ℕ)
connected opens (some l) = some l
connected true none = some none
connected false none = none

abbrev can_lock : (opens : Bool) → Option (Option ℕ) → Bool
can_lock opens (some l) = true
can_lock opens none = opens

abbrev no_lock : Option (Option ℕ) → Option (Option ℕ)
no_lock none = none
no_lock (some l) = some none

abbrev pub empty_table : {K : Type 0} → LockTable K
empty_table = record { at = λ a. none; home = λ i. none }

module _ {K : Type 0} (same : Discrete K) where
  abbrev freed : Option K → K → Option (Option ℕ) → Option (Option ℕ)
  freed none a x = x
  freed (some addr) a x = ite (same addr a) (no_lock x) x

  abbrev locked : ℕ → K → LockTable K → LockTable K
  locked id addr t = record {
    at = λ a. ite (same addr a) (some (some id)) (t.at a);
    home = λ i. ite (ℕ_discrete id i) (some addr) (t.home i);
  }

module _ {K : Type 0} (same : Discrete K) (opens : K → Bool) where
  -- What each operation does to the table. `opens` tells whether an address can be opened.
  abbrev pub table_run : Operation K → LockTable K → LockTable K
  table_run (connects addr) t = record t {
    at = λ a. ite (same addr a) (connected (opens addr) (t.at a)) (t.at a);
  }
  table_run (disconnects addr) t = record t { at = λ a. ite (same addr a) none (t.at a) }
  table_run disconnects_all t = record t { at = λ a. none }
  table_run (locks id addr) t =
      if can_lock (opens addr) (t.at addr) then locked same id addr t else t
  table_run (unlocks id) t = record {
    at = λ a. freed same (t.home id) a (t.at a);
    home = λ i. ite (ℕ_discrete id i) none (t.home i);
  }

  abbrev pub table_run_all : List (Operation K) → LockTable K → LockTable K
  table_run_all [] t = t
  table_run_all (op ∷ ops) t = table_run_all ops (table_run op t)

-- The lock that a request with this id has to wait for.
abbrev pub table_wait : (lock_id : Option ℕ) → Option (Option ℕ) → Option ℕ
table_wait lock_id none = none
table_wait lock_id (some none) = none
table_wait none (some (some id)) = some id
table_wait (some mine) (some (some id)) = if id == mine then none else some id

abbrev held : {I : Type 0} → Option (LockableInstrument I) → Option (Option ℕ)
held none = none
held (some li) = some li.lock

abbrev is_ok : {A : Type 0} → Result A → Bool
is_ok (ok a) = true
is_ok (err e) = false

-- What holds at a key holds where the key is found.
at_key :
    {K A : Type 0} (k a : K) (d : Dec (k ≡ a)) (f g : K → A) (x : A)
    → x ≡ g k
    → ite d x (f a) ≡ ite d (g a) (f a)
at_key k a (yes p) f g x e = e ∙ ap g p
at_key k a (no p) f g x e = refl

same_key :
    {K A : Type 0} (k a : K) (d : Dec (k ≡ a)) (f g : K → A) → f k ≡ g k → f a ≡ ite d (g a) (f a)
same_key k a (yes p) f g e = sym (ap f p) ∙ (e ∙ ap g p)
same_key k a (no p) f g e = refl

tables :
    {K : Type 0} (t u : LockTable K)
    → ((a : K) → t.at a ≡ u.at a)
    → ((i : ℕ) → t.home i ≡ u.home i)
    → t ≡ u
tables t u h k = λ i. record { at = fun_ext h i; home = fun_ext k i }

module _ {K I : Type 0} (same : Discrete K) where
  abbrev pub view : Inventory K I → LockTable K
  view s = record {
    at = λ a. held (get same a s.instruments);
    home = λ i. get ℕ_discrete i s.locks;
  }

  added :
      (addr a : K) (l : Option ℕ) (i : I) (s : Inventory K I)
      → held (get same a (insert same addr (record { instr = i; lock = l }) s.instruments))
        ≡ ite (same addr a) (some l) (held (get same a s.instruments))
  added addr a l i s =
      ground (arith, get-insert same addr a (record { instr = i; lock = l }) s.instruments)

  wait_for_lock-view :
      (addr : K) (lock_id : Option ℕ) (s : Inventory K I)
      → wait_for_lock same addr lock_id s ≡ table_wait lock_id ((view s).at addr)
  unfolding wait_for_lock lock_of
  wait_for_lock-view addr lock_id s = ground arith

  take_found-held :
      (addr : K) (found : Option (LockableInstrument I)) (s : Inventory K I) (a : K)
      → get same addr s.instruments ≡ found
      → held (get same a (take_found same addr found s).1.instruments)
        ≡ freed same (some addr) a (held (get same a s.instruments))
  unfolding take_found
  take_found-held addr none s a e =
      same_key addr a (same addr a) (λ k. held (get same k s.instruments))
        (λ k. no_lock (held (get same k s.instruments))) (rw e refl)
  take_found-held addr (some li) s a e =
      added addr a none li.instr s
      ∙ at_key addr a (same addr a) (λ k. held (get same k s.instruments))
          (λ k. no_lock (held (get same k s.instruments))) (some none) (rw e refl)

  take_lock-held :
      (x : Option K) (s : Inventory K I) (a : K)
      → held (get same a (take_lock same x s).1.instruments)
        ≡ freed same x a (held (get same a s.instruments))
  unfolding take_lock
  take_lock-held none s a = refl
  take_lock-held (some addr) s a = take_found-held addr (get same addr s.instruments) s a refl

  unlock-held :
      (id : ℕ) (s : Inventory K I) (a : K)
      → held (get same a (unlock same id s).instruments)
        ≡ freed same (get ℕ_discrete id s.locks) a (held (get same a s.instruments))
  unfolding unlock
  unlock-held id s a =
      let without : Inventory K I = record s { locks = remove ℕ_discrete id s.locks } in
      let taken = take_lock same (get ℕ_discrete id s.locks) without in
      ap (λ m. held (get same a m)) (release-shared same taken.0 taken.1).0
      ∙ take_lock-held (get ℕ_discrete id s.locks) without a

module _ {K I : Type 0} (same : Discrete K) (open_instrument : K → Result I) where
  abbrev pub opens : K → Bool
  opens addr = is_ok (open_instrument addr)

  abbrev pub run : Operation K → Inventory K I → Inventory K I
  run (connects addr) s = (connect same open_instrument addr s).1
  run (disconnects addr) s = (disconnect same addr s).1
  run disconnects_all s = disconnect_all s
  run (locks id addr) s = (lock same open_instrument id addr s).1
  run (unlocks id) s = unlock same id s

  abbrev pub run_all : List (Operation K) → Inventory K I → Inventory K I
  run_all [] s = s
  run_all (op ∷ ops) s = run_all ops (run op s)

  connect-held :
      (addr : K) (found : Option (LockableInstrument I)) (x : Result I) (s : Inventory K I) (a : K)
      → get same addr s.instruments ≡ found
      → open_instrument addr ≡ x
      → held (get same a (connect_found same open_instrument addr found s).1.instruments)
        ≡ ite
            (same addr a)
            (connected (opens addr) (held (get same a s.instruments)))
            (held (get same a s.instruments))
  unfolding connect_found add
  connect-held addr (some li) x s a e o =
      same_key addr a (same addr a) (λ k. held (get same k s.instruments))
        (λ k. connected (opens addr) (held (get same k s.instruments))) (rw e refl)
  connect-held addr none (err x) s a e o = rw o (
      same_key addr a (same addr a) (λ k. held (get same k s.instruments))
        (λ k. connected false (held (get same k s.instruments))) (rw e refl))
  connect-held addr none (ok i) s a e o = rw o (
      added same addr a none i s
      ∙ at_key addr a (same addr a) (λ k. held (get same k s.instruments))
          (λ k. connected true (held (get same k s.instruments))) (some none) (rw e refl))

  connect_found-locks :
      (addr : K) (found : Option (LockableInstrument I)) (x : Result I) (s : Inventory K I)
      → open_instrument addr ≡ x
      → (connect_found same open_instrument addr found s).1.locks ≡ s.locks
  unfolding connect_found add
  connect_found-locks addr (some li) x s o = refl
  connect_found-locks addr none (ok i) s o = rw o refl
  connect_found-locks addr none (err x) s o = rw o refl

  registered-view :
      (id : ℕ) (addr : K) (i : I) (s t : Inventory K I)
      → t.instruments ≡ s.instruments
      → t.locks ≡ s.locks
      → view same (register id addr (add same addr (some id) (ok i) t)).1
        ≡ locked same id addr (view same s)
  unfolding register add
  registered-view id addr i s t e f =
      tables _ _ (λ a. added same addr a (some id) i t ∙ rw e refl)
        (λ j. get-insert ℕ_discrete id j addr t.locks ∙ rw f refl)

  refused :
      (id : ℕ) (addr : K) (x : Error) (s : Inventory K I)
      → (register id addr (add same addr (some id) (err x) s)).1 ≡ s
  unfolding register add
  refused id addr x s = refl

  lock-view :
      (id : ℕ) (addr : K) (found : Option (LockableInstrument I)) (x : Result I) (s : Inventory K I)
      → get same addr s.instruments ≡ found
      → open_instrument addr ≡ x
      → view same (lock_found same open_instrument id addr found s).1
        ≡ table_run same opens (locks id addr) (view same s)
  unfolding lock_found
  lock-view id addr (some li) x s e o =
      let (f, g) = release-shared same li.lock s in
      rw e (registered-view id addr li.instr s (release li.lock s) f g)
  lock-view id addr none (ok i) s e o = rw (e, o) (registered-view id addr i s s refl refl)
  lock-view id addr none (err x) s e o = rw (e, o) (ap (view same) (refused id addr x s))

  run-view :
      (op : Operation K) (s : Inventory K I)
      → view same (run op s) ≡ table_run same opens op (view same s)
  unfolding connect disconnect disconnect_all lock get
  run-view (connects addr) s =
      tables _ _
        (λ a. connect-held addr (get same addr s.instruments) (open_instrument addr) s a refl refl)
        (λ j.
          ap (get ℕ_discrete j)
            (connect_found-locks addr (get same addr s.instruments) (open_instrument addr) s refl))
  run-view (disconnects addr) s =
      tables _ _ (λ a. ground (arith, get-remove same addr a s.instruments)) (λ j. refl)
  run-view disconnects_all s = tables _ _ (λ a. refl) (λ j. refl)
  run-view (locks id addr) s =
      lock-view id addr (get same addr s.instruments) (open_instrument addr) s refl refl
  run-view (unlocks id) s =
      tables _ _ (λ a. unlock-held same id s a)
        (λ j. rw (unlock-locks same id s) (get-remove ℕ_discrete id j s.locks))

  run_all_lem :
      (ops : List (Operation K)) (s : Inventory K I)
      → view same (run_all ops s) ≡ table_run_all same opens ops (view same s)
  run_all_lem [] s = refl
  run_all_lem (op ∷ ops) s =
      run_all_lem ops (run op s) ∙ ap (table_run_all same opens ops) (run-view op s)

  view-new : view same (new {K = K} {I = I}) ≡ empty_table
  unfolding new get
  view-new = tables _ _ (λ a. refl) (λ j. refl)

  -- The inventory refines the table of locks. After any connects, disconnects, locks and unlocks, in
  -- any order, the same operations on the empty table give the table that the inventory stands for,
  -- which tells what is connected, with which lock, and where each id is registered; and whoever
  -- asks for an instrument, with any id or none, waits for the lock that this table names, if any.
  pub run_all-view :
      (ops : List (Operation K))
      → (view same (run_all ops new) ≡ table_run_all same opens ops empty_table)
        × ((addr : K) (lock_id : Option ℕ)
            → wait_for_lock same addr lock_id (run_all ops new)
              ≡ table_wait lock_id ((table_run_all same opens ops empty_table).at addr))
  run_all-view ops =
      let e = run_all_lem ops new ∙ ap (table_run_all same opens ops) view-new in
      (
        e,
        λ addr lock_id.
            wait_for_lock-view same addr lock_id (run_all ops new)
            ∙ ap (λ t. table_wait lock_id (t.at addr)) e,
      )
