-- ===== src/Concurrency/InFlight/Bounded.antt =====
-- The queue of batches in flight of src/bulk_http/concurrency/pool.py.
use bulk_http.Prelude.{
  ℕ, zero, suc, ◌+◌, ◌≤◌, ◌<◌, List, [], ◌∷◌, ◌++◌, ◌≡◌, ◌⊎◌, inl, inr, refl, ap, arith, length,
  length-append, append_assoc,
}
use bulk_http.Prelude.Int.{pos}
use bulk_http.Concurrency.InFlight.{Event, submit, collect, drain, fill, map_batches}

-- `Served bound queue es`: from a queue of batches in flight, the events keep it within the bound,
-- collect from its front, and leave it empty.
pub data Served {ℓ} {B : Type ℓ} (bound : ℕ) : List B → List (Event B) → Type ℓ where
  idle : Served bound [] []
  submitted :
      {queue : List B} {es : List (Event B)} (b : B)
      → length queue < bound
      → Served bound (queue ++ b ∷ []) es
      → Served bound queue (submit b ∷ es)
  collected :
      {queue : List B} {es : List (Event B)} (b : B)
      → Served bound queue es
      → Served bound (b ∷ queue) (collect b ∷ es)

module _ {ℓ} {B : Type ℓ} where
  -- the batches whose results are collected, in order
  unfoldable pub collects : List (Event B) → List B
  collects [] = []
  collects (submit b ∷ es) = collects es
  collects (collect b ∷ es) = b ∷ collects es

  drain-Served :
      (bound : ℕ) (queue iterator : List B)
      → length queue ≤ bound
      → Served bound queue (drain queue iterator)
  unfolding drain
  drain-Served bound [] iterator h = idle
  drain-Served bound (b ∷ queue) [] h = collected b (drain-Served bound queue [] (omega arith))
  drain-Served bound (b ∷ queue) (x ∷ iterator) h = collected b (
      submitted x (omega arith) (
        drain-Served bound (queue ++ x ∷ []) iterator
          (omega (arith, length-append queue (x ∷ [])))))

  collects-drain :
      (queue iterator : List B)
      → (1 ≤ length queue) ⊎ (iterator ≡ [])
      → collects (drain queue iterator) ≡ queue ++ iterator
  unfolding drain collects
  collects-drain [] [] h = refl
  collects-drain [] (x ∷ iterator) (inl h) = absurd (omega arith)
  collects-drain [] (x ∷ iterator) (inr h) = absurd cc
  collects-drain (b ∷ queue) [] h = ap (◌∷◌ b) (collects-drain queue [] (inr refl))
  collects-drain (b ∷ queue) (x ∷ iterator) h = rw (
    collects-drain (queue ++ x ∷ []) iterator (inl (omega (arith, length-append queue (x ∷ [])))),
    append_assoc,
  )

  fill-Served :
      (bound n : ℕ) (queue iterator : List B)
      → length queue + n ≡ bound
      → Served bound queue (fill n queue iterator)
  unfolding fill
  fill-Served bound zero queue iterator h = drain-Served bound queue iterator (omega arith)
  fill-Served bound (suc n) queue [] h = drain-Served bound queue [] (omega arith)
  fill-Served bound (suc n) queue (x ∷ iterator) h =
      submitted x (omega arith) (
        fill-Served bound n (queue ++ x ∷ []) iterator
          (omega (arith, length-append queue (x ∷ []))))

  collects-fill :
      (n : ℕ) (queue iterator : List B)
      → 1 ≤ length queue + n
      → collects (fill n queue iterator) ≡ queue ++ iterator
  unfolding fill collects
  collects-fill zero queue iterator h = collects-drain queue iterator (inl (omega arith))
  collects-fill (suc n) queue [] h = collects-drain queue [] (inr refl)
  collects-fill (suc n) queue (x ∷ iterator) h = rw (
    collects-fill n (queue ++ x ∷ []) iterator (omega (arith, length-append queue (x ∷ []))),
    append_assoc,
  )

  -- With room for one batch or more, the pool collects the result of every batch, once each and in
  -- the order of the batches, and at no point are more batches in flight than the bound allows.
  pub map_batches-Served :
      (n : ℕ) (batches : List B)
      → Served (suc n) [] (map_batches (pos (suc n)) batches)
        × (collects (map_batches (pos (suc n)) batches) ≡ batches)
  unfolding map_batches
  map_batches-Served n batches = (
    fill-Served (suc n) (suc n) [] batches (omega arith),
    collects-fill (suc n) [] batches (omega arith),
  )
