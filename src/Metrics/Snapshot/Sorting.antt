-- ===== src/Metrics/Snapshot/Sorting.antt =====
-- `sorted` of the samples of src/bulk_http/metrics/collector.py, and how many are on either side of a
-- value.
use bulk_http.Prelude.{
  ℕ, zero, suc, ◌<◌, ◌≡◌, refl, arith, true, false, List, [], ◌∷◌, length, inl, inr, Bool-cases,
}
use bulk_http.Floats.{Floats}
use bulk_http.Floats.Order.{le_of_not}
use bulk_http.Metrics.Snapshot.{insert, sorted_floats, at}

module _ (F : Floats) where
  -- how many samples are at most `v`, and at least `v`
  unfoldable pub at_most : F.Float → List F.Float → ℕ
  at_most v [] = 0
  at_most v (x ∷ xs) = elim (F.le_f x v) [ true ↦ suc (at_most v xs) | false ↦ at_most v xs ]

  unfoldable pub at_least : F.Float → List F.Float → ℕ
  at_least v [] = 0
  at_least v (x ∷ xs) = elim (F.le_f v x) [ true ↦ suc (at_least v xs) | false ↦ at_least v xs ]

  -- a head in front of a sorted list
  unfoldable pub IsBelow : F.Float → List F.Float → Type 0
  IsBelow x [] = Unit
  IsBelow x (y ∷ ys) = (F.le_f x y ≡ true) × IsBelow x ys

  unfoldable pub IsSorted : List F.Float → Type 0
  IsSorted [] = Unit
  IsSorted (x ∷ xs) = IsBelow x xs × IsSorted xs

  IsBelow-insert :
      (x y : F.Float) (ys : List F.Float)
      → F.le_f x y ≡ true
      → IsBelow x ys
      → IsBelow x (insert F y ys)
  unfolding insert IsBelow
  IsBelow-insert x y [] h b = (h, tt)
  IsBelow-insert x y (z ∷ zs) h b = ground (arith, IsBelow-insert x y zs h b.1)

  IsBelow-trans :
      (x y : F.Float) (ys : List F.Float) → F.le_f x y ≡ true → IsBelow y ys → IsBelow x ys
  unfolding IsBelow
  IsBelow-trans x y [] h b = tt
  IsBelow-trans x y (z ∷ zs) h b = (F.le_trans x y z h b.0, IsBelow-trans x y zs h b.1)

  insert-IsSorted : (x : F.Float) (ys : List F.Float) → IsSorted ys → IsSorted (insert F x ys)
  unfolding insert IsSorted IsBelow
  insert-IsSorted x [] h = (tt, tt)
  insert-IsSorted x (y ∷ ys) h = elim (Bool-cases (F.le_f x y)) [
    | inl e ↦ ground (arith, e, IsBelow-trans x y ys e h.0)
    | inr e ↦
        ground (arith, e, insert-IsSorted x ys h.1, IsBelow-insert y x ys (le_of_not F x y e) h.0)
  ]

  pub sorted_floats-IsSorted : (xs : List F.Float) → IsSorted (sorted_floats F xs)
  unfolding sorted_floats IsSorted
  sorted_floats-IsSorted [] = tt
  sorted_floats-IsSorted (x ∷ xs) =
      insert-IsSorted x (sorted_floats F xs) (sorted_floats-IsSorted xs)

  at_most-insert :
      (v x : F.Float) (ys : List F.Float) → at_most v (insert F x ys) ≡ at_most v (x ∷ ys)
  unfolding at_most insert
  at_most-insert v x [] = refl
  at_most-insert v x (y ∷ ys) = ground (arith, at_most-insert v x ys)

  at_least-insert :
      (v x : F.Float) (ys : List F.Float) → at_least v (insert F x ys) ≡ at_least v (x ∷ ys)
  unfolding at_least insert
  at_least-insert v x [] = refl
  at_least-insert v x (y ∷ ys) = ground (arith, at_least-insert v x ys)

  length-insert : (x : F.Float) (ys : List F.Float) → length (insert F x ys) ≡ suc (length ys)
  unfolding insert
  length-insert x [] = refl
  length-insert x (y ∷ ys) = ground (arith, length-insert x ys)

  -- sorting keeps every count
  pub sorted_floats_lem :
      (v : F.Float) (xs : List F.Float)
      → (at_most v (sorted_floats F xs) ≡ at_most v xs)
        × (at_least v (sorted_floats F xs) ≡ at_least v xs)
        × (length (sorted_floats F xs) ≡ length xs)
  unfolding sorted_floats at_most at_least
  sorted_floats_lem v [] = (refl, refl, refl)
  sorted_floats_lem v (x ∷ xs) = ground (
    arith,
    sorted_floats_lem v xs,
    at_most-insert v x (sorted_floats F xs),
    at_least-insert v x (sorted_floats F xs),
    length-insert x (sorted_floats F xs),
  )

  pub at_least-IsBelow :
      (x : F.Float) (ys : List F.Float) → IsBelow x ys → at_least x ys ≡ length ys
  unfolding at_least IsBelow
  at_least-IsBelow x [] b = refl
  at_least-IsBelow x (y ∷ ys) b = ground (arith, b.0, at_least-IsBelow x ys b.1)

  pub IsBelow-at :
      (x : F.Float) (ys : List F.Float) (i : ℕ)
      → IsBelow x ys
      → i < length ys
      → F.le_f x (at F ys i) ≡ true
  unfolding IsBelow
  IsBelow-at x [] i b h = absurd (omega arith)
  IsBelow-at x (y ∷ ys) zero b h = b.0
  IsBelow-at x (y ∷ ys) (suc i) b h = IsBelow-at x ys i b.1 (omega arith)
