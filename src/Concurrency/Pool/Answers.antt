-- ===== src/Concurrency/Pool/Answers.antt =====
-- The results of the worker pool of src/bulk_http/concurrency/pool.py.
use bulk_http.Prelude.{ℕ, suc, subst, none, List, [], ◌∷◌}
use bulk_http.Prelude.Int.{pos}
use bulk_http.Except.{Except, ok, raise}
use bulk_http.Effects.Ensures.{Ensures, Ensures-state}
use bulk_http.Floats.{Floats}
use bulk_http.Models.{Task, Result}
use bulk_http.Net.Transport.{Env}
use bulk_http.Concurrency.InFlight.{Event, submit, collect, map_batches}
use bulk_http.Concurrency.InFlight.Bounded.{collects, map_batches-Served}
use bulk_http.Concurrency.Processor.{Processor, unlimited}
use bulk_http.Concurrency.Processor.Passes.{SameIds}
use bulk_http.Concurrency.Deferral.Batches.{PassFails, run_batch-SameIds}
use bulk_http.Engine.Stream.{Stream, ends, breaks, item}
use bulk_http.Concurrency.Pool.{bare_processor, pool_run_batch, yields, pool_map_batches}

module _ {F : Floats} {E : Env F} (P : Processor E) (aclose : E.World → E.World) where
  -- One list of results for each batch, under the ids of its tasks, in order, up to an error that a
  -- pass over tasks raises.
  pub Answers : List (List (Task F)) → Stream (List (Result F)) → Type 0
  Answers [] ends = Unit {0}
  Answers [] (breaks x) = ⊥
  Answers [] (item rs s) = ⊥
  Answers (batch ∷ batches) ends = ⊥
  Answers (batch ∷ batches) (breaks x) = PassFails (bare_processor P aclose) x
  Answers (batch ∷ batches) (item rs s) =
      SameIds (bare_processor P aclose) batch rs × Answers batches s

  pool_run_batch-SameIds :
      (batch : List (Task F)) (w : E.World)
      → Ensures
          (SameIds (bare_processor P aclose) batch)
          (PassFails (bare_processor P aclose))
          (pool_run_batch P aclose batch w)
  unfolding pool_run_batch
  pool_run_batch-SameIds batch w =
      Ensures-state (SameIds (bare_processor P aclose) batch) (PassFails (bare_processor P aclose))
        _ _
        (run_batch-SameIds (bare_processor P aclose) batch
          (record { pool = none; limiter = unlimited; world = w }))

  answer-Answers :
      (batch : List (Task F)) (batches : List (List (Task F))) (rest : Stream (List (Result F)))
      (out : Except (List (Result F)) × E.World)
      → Ensures (SameIds (bare_processor P aclose) batch) (PassFails (bare_processor P aclose)) out
      → Answers batches rest
      → Answers (batch ∷ batches) (elim out.0 [ ok rs ↦ item rs rest | raise x ↦ breaks x ])
  unfolding Ensures Answers
  answer-Answers batch batches rest (ok rs, w) h later = (h, later)
  answer-Answers batch batches rest (raise x, w) h later = h

  yields-Answers :
      (worlds : ℕ → E.World) (n : ℕ) (events : List (Event (List (Task F))))
      → Answers (collects events) (yields P aclose worlds n events)
  unfolding yields Answers collects
  yields-Answers worlds n [] = tt
  yields-Answers worlds n (submit batch ∷ events) = yields-Answers worlds n events
  yields-Answers worlds n (collect batch ∷ events) =
      answer-Answers batch (collects events) _ (pool_run_batch P aclose batch (worlds n))
        (pool_run_batch-SameIds batch (worlds n)) (yields-Answers worlds (suc n) events)

  -- With room for one batch or more, and whatever world each batch finds in its worker, the pool
  -- yields one list of results for each batch, in the order of the batches, of results that stand
  -- for the tasks of the batch one by one; or it stops with an error that a pass over tasks raises,
  -- behind the lists of the batches in front.
  pub pool_map_batches-Answers :
      (n : ℕ) (worlds : ℕ → E.World) (batches : List (List (Task F)))
      → Answers batches (pool_map_batches P aclose (pos (suc n)) worlds batches)
  unfolding pool_map_batches
  pool_map_batches-Answers n worlds batches =
      subst (λ bs. Answers bs (yields P aclose worlds 0 (map_batches (pos (suc n)) batches)))
        (map_batches-Served n batches).1
        (yields-Answers worlds 0 (map_batches (pos (suc n)) batches))
