-- ===== src/Gct/DdpV2/Parts.antt =====
-- The map of the parts that have arrived, where they are the pieces of one list.
use native.Mathlib.Decide.{ℕ_discrete}
use mathlib.Core.Logic.{if_pos, if_neg}
use comsrv.Base.{
  ℕ, zero, suc, ◌+◌, ◌<◌, ◌≡◌, refl, sym, ap, List, [], ◌∷◌, ◌++◌, some, length, arith, get_or,
  drop,
}
use comsrv.Base.Assoc
use comsrv.Base.Chunks.{join}
use comsrv.Gct.DdpV2.{collect}

-- The parts 0, 1, … below `n` are the pieces.
abbrev pub HasParts : List (List ℕ) → ℕ → List (ℕ × List ℕ) → Type 0
HasParts pieces n parts = (k : ℕ) → k < n → Assoc.get ℕ_discrete k parts ≡ some (get_or pieces k [])

pub insert-HasParts :
    (pieces : List (List ℕ)) (n : ℕ) (parts : List (ℕ × List ℕ))
    → HasParts pieces n parts
    → HasParts pieces (n + 1) (Assoc.insert ℕ_discrete n (get_or pieces n []) parts)
insert-HasParts pieces n parts h k hk =
    rw (Assoc.get-insert ℕ_discrete n k (get_or pieces n []) parts) (elim (ℕ_discrete n k) [
      | yes e ↦ rw (if_pos _ e) (ap (λ (i : ℕ). some (get_or pieces i [])) e)
      | no ne ↦ rw (if_neg _ ne) (h k (omega arith))
    ])

pub drop-get_or :
    (k : ℕ) (pieces : List (List ℕ))
    → k < length pieces
    → join (drop k pieces) ≡ get_or pieces k [] ++ join (drop (suc k) pieces)
unfolding join
drop-get_or k [] h = absurd (omega arith)
drop-get_or zero (piece ∷ pieces) h = refl
drop-get_or (suc k) (piece ∷ pieces) h = drop-get_or k pieces (omega arith)

pub drop_all : (k : ℕ) (pieces : List (List ℕ)) → k ≡ length pieces → join (drop k pieces) ≡ []
unfolding join
drop_all zero [] h = refl
drop_all (suc k) [] h = refl
drop_all zero (piece ∷ pieces) h = absurd (omega arith)
drop_all (suc k) (piece ∷ pieces) h = drop_all k pieces (omega arith)

pub collect-HasParts :
    (rounds k : ℕ) (pieces : List (List ℕ)) (parts : List (ℕ × List ℕ))
    → HasParts pieces (length pieces) parts
    → k + rounds ≡ length pieces
    → collect rounds k parts ≡ some (join (drop k pieces))
unfolding collect
collect-HasParts zero k pieces parts h e = ap some (sym (drop_all k pieces (omega arith)))
collect-HasParts (suc rounds) k pieces parts h e =
    let next : k + 1 ≡ suc k = omega arith in
    rw (h k (omega arith), next, collect-HasParts rounds (suc k) pieces parts h (omega arith))
      (ap some (sym (drop-get_or k pieces (omega arith))))
