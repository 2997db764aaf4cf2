-- ===== src/Concurrency/Deferral.antt =====
-- `run_batch` of src/bulk_http/concurrency/processor.py: one pass over a batch or, under a limiter
-- with `record`, further passes over the tasks that were deferred.
pub mod Batches
use bulk_http.Prelude.{
  ℕ, zero, suc, String, Bool, true, false, Option, none, some, List, [], ◌∷◌, ◌++◌, ◌&&◌, ◌||◌,
  contains, string_keys, nat_keys, is_some,
}
use bulk_http.Prelude.Int.{ℤ, rounds}
use bulk_http.Except.{Except, ok, raise, key_error, ◌>>=◌}
use bulk_http.Effects.{Stateful, ◌then◌, lift}
use bulk_http.Floats.{Floats}
use bulk_http.Dict.{Dict, get, put}
use bulk_http.Types.{idempotent_methods}
use bulk_http.Models.{Task, Result}
use bulk_http.Config.{EngineConfig, ResolvedRequest, effective, or_default}
use bulk_http.Net.Transport.{RawResponse, Env}
use bulk_http.Net.Retry.{perform_with_retries, status_is}
use bulk_http.Proxies.Health.{Outcome, classify_outcome}
use bulk_http.Proxies.Pool.{ProxyPool, select, report, or_raise}
use bulk_http.Proxies.RateLimit.{DomainRateLimiter, Slot, acquire}
use bulk_http.Proxies.Adaptive.{AdaptiveRateLimiter, acquire_adaptive, record_adaptive}
use bulk_http.Evaluate.{Libraries, Predicate, new_matcher, evaluate}
use bulk_http.Concurrency.Processor.{
  Limiter, unlimited, fixed, adaptive, Machine, Processor, Run, is_adaptive, run_once,
}

abbrev pub or_one : ℕ → ℕ
or_one zero = 1
or_one (suc n) = suc n

-- max(1, int(getattr(self._rate_limiter, "max_attempts", 1)))
abbrev pub max_passes : {F : Floats} → Limiter F → ℕ
max_passes unlimited = 1
max_passes (fixed l) = 1
max_passes (adaptive l) = or_one (rounds l.config.max_attempts)

module _ {F : Floats} {E : Env F} (P : Processor E) where
  -- _should_defer
  unfoldable pub should_defer : Task F → Result F → Bool
  should_defer task result =
      (status_is result.status 429 || is_some result.error)
      && (contains idempotent_methods task.request.method || P.config.retry_non_idempotent)

  -- what a pass writes into the results, and what it defers
  unfoldable pub keep_results :
      List (Task F) → List (Result F) → Dict ℕ (Result F) → Dict ℕ (Result F) × List (Task F)
  unfolding should_defer
  keep_results (task ∷ tasks) (result ∷ rest) results =
      let (final, deferred) = keep_results tasks rest (put task.source_id result results) in
      (final, elim (should_defer task result) [ true ↦ task ∷ deferred | false ↦ deferred ])
  keep_results [] rest results = (results, [])
  keep_results (task ∷ tasks) [] results = (results, [])

  -- the loop over the passes that are left
  unfoldable pub passes : ℕ → List (Task F) → Dict ℕ (Result F) → Run E (Dict ℕ (Result F))
  unfolding run_once keep_results
  passes zero pending results = lift (ok results)
  passes (suc n) pending results = run_once P pending then λ rs.
      let (results', deferred) = keep_results pending rs results in
      elim deferred [ [] ↦ lift (ok results') | task ∷ tasks ↦ passes n (task ∷ tasks) results' ]

-- [results[task.source_id] for task in tasks]
unfoldable pub collect_results :
    {F : Floats} → Dict ℕ (Result F) → List (Task F) → Except (List (Result F))
collect_results results [] = ok []
collect_results results (task ∷ tasks) = or_raise (get task.source_id results) key_error >>= λ r.
    collect_results results tasks >>= λ rs. ok (r ∷ rs)

-- the two ways through run_batch: one pass, or up to `n` of them
unfoldable pub run_passes :
    {F : Floats} {E : Env F} (P : Processor E) → Bool → ℕ → List (Task F) → Run E (List (Result F))
unfolding passes run_once collect_results
run_passes P false n tasks = run_once P tasks
run_passes P true n tasks = passes P n tasks [] then λ results. lift (collect_results results tasks)

-- TaskProcessor.run_batch
unfoldable pub run_batch :
    {F : Floats} {E : Env F} (P : Processor E) → List (Task F) → Run E (List (Result F))
unfolding run_passes
run_batch P tasks s = run_passes P (is_adaptive s.limiter) (max_passes s.limiter) tasks s
