-- ===== src/Concurrency/Pool.antt =====
-- src/bulk_http/concurrency/pool.py: a batch in a worker process, and what WorkerPool.map_batches
-- yields. A worker is the world of its process; which worker takes a batch, and what the worker did
-- before, is left open.
pub mod Answers
use bulk_http.Prelude.{ℕ, suc, none, List, [], ◌∷◌}
use bulk_http.Prelude.Int.{ℤ}
use bulk_http.Except.{Except, ok, raise}
use bulk_http.Effects.{Stateful}
use bulk_http.Floats.{Floats}
use bulk_http.Models.{Task, Result}
use bulk_http.Net.Transport.{Env}
use bulk_http.Concurrency.InFlight.{Event, submit, collect, map_batches}
use bulk_http.Concurrency.Processor.{Processor, unlimited}
use bulk_http.Concurrency.Deferral.{run_batch}
use bulk_http.Engine.Stream.{Stream, ends, breaks, item}

module _ {F : Floats} {E : Env F} (P : Processor E) (aclose : E.World → E.World) where
  -- TaskProcessor(config, transport, predicate=predicate)
  abbrev pub bare_processor : Processor E
  bare_processor = record P { robots = none }

  -- _run_batch: the transport is closed whether the batch raises or not
  unfoldable pub pool_run_batch : List (Task F) → Stateful E.World (List (Result F))
  unfolding run_batch
  pool_run_batch batch w =
      let (r, m) =
        run_batch bare_processor batch (record { pool = none; limiter = unlimited; world = w }) in
      (r, aclose m.world)

  -- `get` of the results of the batches that are collected, where the batch that is submitted as
  -- the n-th one finds the world `worlds n`
  unfoldable pub yields :
      (ℕ → E.World) → ℕ → List (Event (List (Task F))) → Stream (List (Result F))
  unfolding pool_run_batch
  yields worlds n [] = ends
  yields worlds n (submit batch ∷ events) = yields worlds n events
  yields worlds n (collect batch ∷ events) =
      let rest = yields worlds (suc n) events in
      elim (pool_run_batch batch (worlds n)).0 [ ok rs ↦ item rs rest | raise x ↦ breaks x ]

  -- WorkerPool.map_batches
  unfoldable pub pool_map_batches :
      ℤ → (ℕ → E.World) → List (List (Task F)) → Stream (List (Result F))
  unfolding yields map_batches
  pool_map_batches in_flight worlds batches = yields worlds 0 (map_batches in_flight batches)
