-- ===== src/Concurrency/InFlight.antt =====
-- src/bulk_http/concurrency/pool.py and engine/spawn.py: batches handed to a pool of workers with a
-- bounded number in flight, and collected in the order in which they were handed over.
pub mod Bounded
use bulk_http.Prelude.{ℕ, zero, suc, List, [], ◌∷◌, ◌++◌}
use bulk_http.Prelude.Int.{ℤ, rounds}

-- `apply_async` of a batch, and `get` of its result.
pub data Event {ℓ} (B : Type ℓ) : Type ℓ where
  submit collect : B → Event B

module _ {ℓ} {B : Type ℓ} where
  -- the `while pending` loop, with the rest of the iterator
  unfoldable pub drain : List B → List B → List (Event B)
  drain [] iterator = []
  drain (b ∷ pending) [] = collect b ∷ drain pending []
  drain (b ∷ pending) (x ∷ iterator) = collect b ∷ submit x ∷ drain (pending ++ x ∷ []) iterator

  -- the `for _ in range(self._in_flight)` loop, and then the drain
  unfoldable pub fill : ℕ → List B → List B → List (Event B)
  unfolding drain
  fill zero pending iterator = drain pending iterator
  fill (suc n) pending [] = drain pending []
  fill (suc n) pending (x ∷ iterator) = submit x ∷ fill n (pending ++ x ∷ []) iterator

  -- WorkerPool.map_batches and SpawnExecutor.execute
  unfoldable pub map_batches : ℤ → List B → List (Event B)
  unfolding fill
  map_batches in_flight batches = fill (rounds in_flight) [] batches
