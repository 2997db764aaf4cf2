-- ===== src/Engine/Spawn/Steps.antt =====
-- What the steps in front of the writing of src/bulk_http/engine/spawn.py leave and return.
use bulk_http.Prelude.{
  ◌≡◌, refl, sym, ◌∙◌, subst, arith, String, Option, some, List, inl, inr, Option-cases,
}
use bulk_http.Except.{Error, Except, ok, raise}
use bulk_http.Effects.{◌then◌}
use bulk_http.Effects.Ensures.{Ensures}
use bulk_http.Floats.{Floats}
use bulk_http.Models.{Task, Result}
use bulk_http.Net.Transport.{Env}
use bulk_http.Concurrency.Processor.{Limiter, Processor}
use bulk_http.Proxies.Pool.{ProxyPool}
use bulk_http.Concurrency.Processor.Passes.{SameIds}
use bulk_http.Concurrency.Deferral.{run_batch}
use bulk_http.Concurrency.Deferral.Batches.{PassFails, run_batch-SameIds}
use bulk_http.Sinks.Ndjson.{Sink}
use bulk_http.Engine.Spawn.{Worker, limited, go, after_machine}

-- what holds of the value of a call holds whatever state comes with it
Ensures-state :
    {A S S' : Type 0} (Q : A → Type 0) (X : Error → Type 0) (out : Except A × S) (s : S')
    → Ensures {S = S} Q X out
    → Ensures {S = S'} Q (λ _. Unit {0}) (out.0, s)
unfolding Ensures
Ensures-state Q X (ok a, m) s h = h
Ensures-state Q X (raise x, m) s h = tt

module _ {F : Floats} {E : Env F} (P : Processor E) (proxies : List String) where
  limited-sink : (s : Worker E) → (limited P proxies s).1.sink ≡ s.sink
  unfolding limited
  limited-sink s = ground arith

  go-sink : (batch : List (Task F)) (s : Worker E) → (go P proxies batch s).1.sink ≡ s.sink
  unfolding go
  go-sink batch s = ground arith

  go-run :
      (batch : List (Task F)) (s : Worker E) (pool : Option (ProxyPool F)) (limiter : Limiter F)
      → s.proxy_pool ≡ some pool
      → s.rate_limiter ≡ some limiter
      → go P proxies batch s ≡ (
          let out =
            run_batch P batch (record { pool = pool; limiter = limiter; world = s.world }) in
          (out.0, after_machine P proxies s out.1))
  unfolding go
  go-run batch s pool limiter e e' = rw (go, e, e') refl

  pub go-SameIds :
      (batch : List (Task F)) (s : Worker E)
      → Ensures (SameIds P batch) (λ _. Unit {0}) (go P proxies batch s)
  unfolding go Ensures
  go-SameIds batch s = elim (Option-cases s.proxy_pool) [
    | inl e ↦ rw e tt
    | inr (pool, e) ↦ elim (Option-cases s.rate_limiter) [
      | inl e' ↦ rw (e, e') tt
      | inr (limiter, e') ↦
          subst (Ensures (SameIds P batch) (λ _. Unit {0})) (sym (go-run batch s pool limiter e e'))
            (Ensures-state (SameIds P batch) (PassFails P) _ _ (
              run_batch-SameIds P batch
                (record { pool = pool; limiter = limiter; world = s.world })))
    ]
  ]

  go_after :
      (batch : List (Task F)) (sink : Option Sink) (out : Except (Unit {0}) × Worker E)
      → out.1.sink ≡ sink
      → (elim out.0 as (λ _. Except (List (Result F)) × Worker E) [
        | ok a ↦ go P proxies batch out.1
        | raise x ↦ (raise x, out.1)
      ]).1.sink
        ≡ sink
  go_after batch sink (ok a, s) e = go-sink batch s ∙ e
  go_after batch sink (raise x, s) e = e

  pub both-sink :
      (batch : List (Task F)) (s : Worker E)
      → ((limited P proxies then (λ _. go P proxies batch)) s).1.sink ≡ s.sink
  unfolding ◌then◌
  both-sink batch s = go_after batch s.sink (limited P proxies s) (limited-sink s)
