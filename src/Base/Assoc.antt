-- ===== src/Base/Assoc.antt =====
-- `HashMap` with decidable keys, as an association list: `get`, `insert`, `remove`, `keys`.
use mathlib.Core.Path.{◌≡◌}
use mathlib.Core.List.{List, [], ◌∷◌, map}
use mathlib.Core.Option.{Option, none, some}
use mathlib.Core.Logic.{ite}
use native.Mathlib.Omega.{arith}

module _ {ℓ} {K V : Type ℓ} (same : Discrete K) where
  unfoldable pub get : K → List (K × V) → Option V
  get k [] = none
  get k ((j, v) ∷ m) = ite (same j k) (some v) (get k m)

  unfoldable pub remove : K → List (K × V) → List (K × V)
  remove k [] = []
  remove k ((j, v) ∷ m) = let rest = remove k m in ite (same j k) rest ((j, v) ∷ rest)

  unfoldable pub insert : K → V → List (K × V) → List (K × V)
  unfolding remove
  insert k v m = (k, v) ∷ remove k m

  pub get-remove : (k j : K) (m : List (K × V)) → get j (remove k m) ≡ ite (same k j) none (get j m)
  unfolding get remove
  get-remove k j [] = ground arith
  get-remove k j ((i, v) ∷ m) = ground (arith, get-remove k j m)

  pub get-insert :
      (k j : K) (v : V) (m : List (K × V))
      → get j (insert k v m) ≡ ite (same k j) (some v) (get j m)
  unfolding get insert
  get-insert k j v m = ground (arith, get-remove k j m)

unfoldable pub keys {ℓ} : {K V : Type ℓ} → List (K × V) → List K
keys m = map (λ e. e.0) m
