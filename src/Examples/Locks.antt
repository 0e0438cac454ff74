-- ===== src/Examples/Locks.antt =====
-- Two locks on one instrument.
use comsrv.Base.{ℕ, ◌+◌, ◌≡◌, ◌≢◌, refl, Option, none, some, arith, ℕ_discrete}
use comsrv.Base.Assoc.{get, insert, remove}
use comsrv.Protocol.Error.{Result, ok}
use comsrv.Inventory.{
  Inventory, new, wait_for_lock, lock, lock_of, unlock, start, step, locks, IsConsistent,
}
use comsrv.Inventory.Laws.{Reachable-IsConsistent}
use comsrv.Inventory.Locking.{after_lock, unlock-replaced}

-- Addresses and instruments are numbers here.
abbrev open_number : ℕ → Result ℕ
open_number addr = ok (addr + 100)

abbrev empty : Inventory ℕ ℕ
empty = new

-- The instrument 7 with the lock 1.
abbrev locked_once : Inventory ℕ ℕ
locked_once = after_lock ℕ_discrete open_number 1 7 empty

Reachable-IsConsistent_example : IsConsistent ℕ_discrete locked_once
unfolding new get
Reachable-IsConsistent_example =
    Reachable-IsConsistent ℕ_discrete open_number locked_once
      (step empty locked_once start (locks 1 7 empty refl))

-- Unlocking 1 takes the lock 2 away.
unlock-replaced_example :
    (wait_for_lock ℕ_discrete 7 (some 2) (after_lock ℕ_discrete open_number 2 7 locked_once) ≡ none)
    × ((other : Option ℕ)
        → other ≢ some 2
        → wait_for_lock ℕ_discrete 7 other (after_lock ℕ_discrete open_number 2 7 locked_once)
          ≡ some 2)
    × ((lock_id : Option ℕ)
        → wait_for_lock ℕ_discrete 7 lock_id
            (unlock ℕ_discrete 1 (after_lock ℕ_discrete open_number 2 7 locked_once))
          ≡ none)
unfolding new lock get insert remove lock_of ℕ_discrete
unlock-replaced_example =
    unlock-replaced ℕ_discrete open_number 1 2 7 locked_once
      (Reachable-IsConsistent ℕ_discrete open_number locked_once
        (step empty locked_once start (locks 1 7 empty refl)))
      refl (omega arith) refl
