-- ===== src/Metrics/Snapshot/Percentiles.antt =====
-- The percentiles of src/bulk_http/metrics/collector.py among the samples.
use bulk_http.Prelude.{
  ℕ, zero, suc, ◌+◌, ◌-◌, ◌≤◌, ◌<◌, ◌≡◌, sym, ◌∙◌, subst, arith, true, false, List, [], ◌∷◌, length,
  inl, inr, Bool-cases, ◌↔◌,
}
use bulk_http.Prelude.Int.{ℤ, pos, negsuc, int_le}
use bulk_http.Floats.{Floats}
use bulk_http.Metrics.Snapshot.{before, lesser, sorted_floats, at, index, percentile}
use bulk_http.Floats.Rounding.{Rounding, exact_bound}
use bulk_http.Metrics.Snapshot.Sorting.{
  at_most, at_least, IsSorted, sorted_floats-IsSorted, sorted_floats_lem, at_least-IsBelow,
  IsBelow-at,
}

module _ (F : Floats) where
  -- The value at place `i` in the order of the samples: more than `i` of them are at most that, and
  -- all but `i` of them are at least that.
  pub Ranks : F.Float → ℕ → List F.Float → Type 0
  Ranks v i xs = (i < at_most F v xs) × (length xs ≤ i + at_least F v xs)

  at-Ranks : (ys : List F.Float) (i : ℕ) → IsSorted F ys → i < length ys → Ranks (at F ys i) i ys
  unfolding Ranks IsSorted at_most at_least
  at-Ranks [] i s h = absurd (omega arith)
  at-Ranks (y ∷ ys) zero s h = ground (arith, F.le_refl y, at_least-IsBelow F y ys s.0)
  at-Ranks (y ∷ ys) (suc i) s h =
      let below = IsBelow-at F y ys i s.0 (omega arith) in
      let there = at-Ranks ys i s.1 (omega arith) in ground (arith, below, there)

  index-lt : (ceil : F.Float → ℤ) (pct n : ℕ) → index F ceil pct (suc n) < suc n
  index-lt ceil pct n = ground arith

  Ranks-sorted_floats :
      (v : F.Float) (i : ℕ) (xs : List F.Float) → Ranks v i (sorted_floats F xs) → Ranks v i xs
  unfolding Ranks
  Ranks-sorted_floats v i xs h =
      let (most, least, same) = sorted_floats_lem F v xs in
      (omega (arith, most, h.0), omega (arith, least, same, h.1))

  -- The value at its place is inside, whatever the rounding.
  percentile-Ranks :
      (ceil : F.Float → ℤ) (x : F.Float) (xs : List F.Float) (pct : ℕ)
      → Ranks (percentile F ceil (x ∷ xs) pct) (index F ceil pct (length (x ∷ xs))) (x ∷ xs)
  unfolding percentile
  percentile-Ranks ceil x xs pct =
      let ys = sorted_floats F (x ∷ xs) in
      let place : ℕ → ℕ = index F ceil pct in
      let v = at F ys (place (length ys)) in
      let same : length ys ≡ suc (length xs) = (sorted_floats_lem F v (x ∷ xs)).2 in
      let inside : place (suc (length xs)) < suc (length xs) = index-lt ceil pct (length xs) in
      let there : place (length ys) < length ys = subst (λ n. place n < n) (sym same) inside in
      subst (λ n. Ranks v (place n) (x ∷ xs)) same
        (Ranks-sorted_floats v (place (length ys)) (x ∷ xs)
          (at-Ranks ys (place (length ys)) (sorted_floats-IsSorted F (x ∷ xs)) there))

  -- a sample is not both at most `u` and at least `v`, where `u` is below `v`
  apart :
      (u v : F.Float) (xs : List F.Float)
      → F.le_f v u ≡ false
      → at_most F u xs + at_least F v xs ≤ length xs
  unfolding at_most at_least
  apart u v [] h = omega arith
  apart u v (x ∷ xs) h = ground (arith, apart u v xs h, F.le_trans v x u, h)

  at_most_le : (v : F.Float) (xs : List F.Float) → at_most F v xs ≤ length xs
  unfolding at_most
  at_most_le v [] = omega arith
  at_most_le v (x ∷ xs) = ground (arith, at_most_le v xs)

  -- the nearest rank: at least `share` of the samples are at most `v`, and that holds of no value
  -- below `v` that is not below all samples
  pub IsNearestRank : F.Float → F.Float → List F.Float → Type 0
  IsNearestRank share v xs =
      (F.le_f share (F.of_nat (at_most F v xs)) ≡ true)
      × ((u : F.Float)
          → 0 < at_most F u xs
          → F.le_f share (F.of_nat (at_most F u xs)) ≡ true
          → F.le_f v u ≡ true)

  -- what `index` is, for a rank that is not above the number of samples
  place-Ranks :
      (z : ℤ) (n m : ℕ)
      → int_le z n ≡ true
      → 0 < m
      → (lesser (before z) (n - 1) < m) ↔ (int_le z m ≡ true)
  place-Ranks (pos k) n m h = ground arith
  place-Ranks (negsuc k) n m h = ground arith

  -- Of at most 2^53 samples, of which there is one at least, the percentile is the value at the
  -- nearest rank: for the share that the code computes of their number in floats, at least so many
  -- samples are at most the value, and of no value below it that is not below all samples is that
  -- so. The share is at most the number of samples, and math.ceil is the least integer that is not
  -- below its argument.
  pub percentile-IsNearestRank :
      (R : Rounding F) (x : F.Float) (xs : List F.Float) (pct : ℕ)
      → length (x ∷ xs) ≤ exact_bound
      → F.le_f
          (F.mul_f (F.div_f (F.of_nat pct) (F.of_nat 100)) (F.of_nat (length (x ∷ xs))))
          (F.of_nat (length (x ∷ xs)))
        ≡ true
      → IsNearestRank
          (F.mul_f (F.div_f (F.of_nat pct) (F.of_nat 100)) (F.of_nat (length (x ∷ xs))))
          (percentile F R.ceil (x ∷ xs) pct)
          (x ∷ xs)
  unfolding IsNearestRank Ranks
  percentile-IsNearestRank R x xs pct few part =
      let n = length (x ∷ xs) in
      let share = F.mul_f (F.div_f (F.of_nat pct) (F.of_nat 100)) (F.of_nat n) in
      let v = percentile F R.ceil (x ∷ xs) pct in
      let (most, least) = percentile-Ranks R.ceil x xs pct in
      let within : int_le (R.ceil share) n ≡ true = R.ceil_le share n few ∙ part in
      let m = at_most F v (x ∷ xs) in
      let some_here : 0 < m = omega (arith, most) in
      let size : m ≤ exact_bound = omega (arith, at_most_le v (x ∷ xs)) in
      (
        sym (R.ceil_le share m size) ∙ (place-Ranks (R.ceil share) n m within some_here).0 most,
        λ u inside enough. elim (Bool-cases (F.le_f v u)) [
          | inl e ↦ e
          | inr below ↦
              let k = at_most F u (x ∷ xs) in
              let small : k ≤ exact_bound = omega (arith, at_most_le u (x ∷ xs)) in
              let past =
                (place-Ranks (R.ceil share) n k within inside).1
                  (R.ceil_le share k small ∙ enough) in
              absurd (omega (arith, past, least, apart u v (x ∷ xs) below))
        ],
      )
