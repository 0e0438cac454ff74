-- ===== src/Base/Chunks.antt =====
-- `slice::chunks`: pieces of `n` elements, the last one possibly shorter.
use Prim.Native.Nat.{ℕ, zero, suc, ◌+◌, ◌/◌, ◌≤◌}
use mathlib.Core.Path.{◌≡◌, refl, ap}
use mathlib.Core.List.{List, [], ◌∷◌, ◌++◌}
use native.Mathlib.Omega.{arith}
use comsrv.Base.Lists.{length, take, drop, All, take-append-drop, length-take, length-drop}

module _ {ℓ} {A : Type ℓ} where
  chunk_loop : ℕ → ℕ → List A → List (List A)
  chunk_loop zero n xs = []
  chunk_loop (suc fuel) n [] = []
  chunk_loop (suc fuel) n (x ∷ xs) = take n (x ∷ xs) ∷ chunk_loop fuel n (drop n (x ∷ xs))

  -- Each round takes an element at least, so `length xs` rounds are enough.
  unfoldable pub chunks : ℕ → List A → List (List A)
  unfolding chunk_loop
  chunks n xs = chunk_loop (length xs) n xs

  -- Lengths of pieces: between 1 and `n`.
  abbrev pub IsPiece : ℕ → List A → Type 0
  IsPiece n c = (1 ≤ length c) × (length c ≤ n)

  unfoldable pub join : List (List A) → List A
  join [] = []
  join (c ∷ cs) = c ++ join cs

  join-chunk_loop :
      (fuel n : ℕ) (xs : List A) → 1 ≤ n → length xs ≤ fuel → join (chunk_loop fuel n xs) ≡ xs
  unfolding chunk_loop join
  join-chunk_loop zero n [] hn h = refl
  join-chunk_loop zero n (x ∷ xs) hn h = absurd (omega arith)
  join-chunk_loop (suc fuel) n [] hn h = refl
  join-chunk_loop (suc fuel) n (x ∷ xs) hn h =
      rw (join-chunk_loop fuel n (drop n (x ∷ xs)) hn (omega (arith, length-drop n (x ∷ xs))))
        (take-append-drop n (x ∷ xs))

  chunk_loop-IsPiece : (fuel n : ℕ) (xs : List A) → 1 ≤ n → All (IsPiece n) (chunk_loop fuel n xs)
  unfolding chunk_loop
  chunk_loop-IsPiece zero n xs hn = tt
  chunk_loop-IsPiece (suc fuel) n [] hn = tt
  chunk_loop-IsPiece (suc fuel) n (x ∷ xs) hn = (
    (omega (arith, length-take n (x ∷ xs)), omega (arith, length-take n (x ∷ xs))),
    chunk_loop-IsPiece fuel n (drop n (x ∷ xs)) hn,
  )

  -- The number of pieces, at the size that the code uses.
  length-chunk_loop :
      (fuel : ℕ) (xs : List A)
      → length xs ≤ fuel
      → length (chunk_loop fuel 8 xs) ≡ (length xs + 7) / 8
  unfolding chunk_loop
  length-chunk_loop zero [] h = omega arith
  length-chunk_loop zero (x ∷ xs) h = absurd (omega arith)
  length-chunk_loop (suc fuel) [] h = omega arith
  length-chunk_loop (suc fuel) (x ∷ xs) h = omega (
    arith,
    length-chunk_loop fuel (drop 7 xs) (omega (arith, length-drop 7 xs)),
    length-drop 7 xs,
  )

  pub join-chunks : (n : ℕ) (xs : List A) → 1 ≤ n → join (chunks n xs) ≡ xs
  unfolding chunks
  join-chunks n xs hn = join-chunk_loop (length xs) n xs hn (omega arith)

  pub chunks-IsPiece : (n : ℕ) (xs : List A) → 1 ≤ n → All (IsPiece n) (chunks n xs)
  unfolding chunks
  chunks-IsPiece n xs hn = chunk_loop-IsPiece (length xs) n xs hn

  pub length-chunks : (xs : List A) → length (chunks 8 xs) ≡ (length xs + 7) / 8
  unfolding chunks
  length-chunks xs = length-chunk_loop (length xs) xs (omega arith)

  enough_fuel :
      (f g m : ℕ) (xs : List A)
      → length xs ≤ f
      → length xs ≤ g
      → chunk_loop f (suc m) xs ≡ chunk_loop g (suc m) xs
  unfolding chunk_loop
  enough_fuel zero zero m xs hf hg = refl
  enough_fuel zero (suc g) m [] hf hg = refl
  enough_fuel zero (suc g) m (x ∷ xs) hf hg = absurd (omega arith)
  enough_fuel (suc f) zero m [] hf hg = refl
  enough_fuel (suc f) zero m (x ∷ xs) hf hg = absurd (omega arith)
  enough_fuel (suc f) (suc g) m [] hf hg = refl
  enough_fuel (suc f) (suc g) m (x ∷ xs) hf hg = ap (◌∷◌ (x ∷ take m xs)) (
      enough_fuel f g m (drop m xs) (omega (arith, length-drop m xs))
        (omega (arith, length-drop m xs)))

  pub chunks-cons :
      (m : ℕ) (x : A) (xs : List A)
      → chunks (suc m) (x ∷ xs) ≡ (x ∷ take m xs) ∷ chunks (suc m) (drop m xs)
  unfolding chunks chunk_loop
  chunks-cons m x xs = ap (◌∷◌ (x ∷ take m xs)) (
      enough_fuel (length xs) (length (drop m xs)) m (drop m xs) (omega (arith, length-drop m xs))
        (omega arith))
