-- ===== src/Engine/Spawn.antt =====
-- src/bulk_http/engine/spawn.py: the batches of a worker process, whose state starts empty and is
-- filled by its first batch. Pickling and the processes themselves are left out: a worker is the
-- state that its process keeps, with the file that carries its process id.
pub mod Written
pub mod Steps
pub mod Batch
pub mod Fleet
use bulk_http.Prelude.{ℕ, ◌+◌, String, true, false, Option, none, some, List, [], ◌∷◌, ◌++◌}
use bulk_http.Except.{Except, ok, raise, key_error, ◌>>=◌}
use bulk_http.Effects.{Stateful, ◌then◌, lift}
use bulk_http.Floats.{Floats}
use bulk_http.Bytes.{Bytes, newline}
use bulk_http.Value.{Value}
use bulk_http.Models.{Task, Result}
use bulk_http.Net.Transport.{Env}
use bulk_http.Proxies.Pool.{ProxyPool}
use bulk_http.Concurrency.Processor.{Limiter, Machine, Processor}
use bulk_http.Concurrency.Deferral.{run_batch}
use bulk_http.Sinks.Serialize.{payload}
use bulk_http.Sinks.Ndjson.{Sink, open_sink, write_bytes, commit}
use bulk_http.Metrics.{compute_batch_stats, default_sample_cap}
use bulk_http.Engine.Control.{ControlMessage}
use bulk_http.Engine.Run.{build_rate_limiter, pool_for, default_flush_bytes}

-- _SPAWN_STATE, with the file `worker-<pid>.ndjson` as the worker finds it; `proxy_pool` and
-- `rate_limiter` are none until they are set, and a pool that is set may be None.
pub record Worker {F : Floats} (E : Env F) : Type 0 where
  pub file : Bytes
  pub sink : Option Sink
  pub proxy_pool : Option (Option (ProxyPool F))
  pub rate_limiter : Option (Limiter F)
  pub world : E.World

-- _spawn_init
unfoldable pub spawn_init : {F : Floats} {E : Env F} → Bytes → E.World → Worker E
spawn_init file world = record {
  file = file;
  sink = none;
  proxy_pool = none;
  rate_limiter = none;
  world = world;
}

module _ {F : Floats} (dumps : Value F → Except Bytes) where
  -- result_to_line, where orjson.dumps raises on what it cannot serialize
  unfoldable pub line_or_raise : Result F → Except Bytes
  unfolding payload
  line_or_raise r = dumps (payload r) >>= λ text. ok (text ++ newline ∷ [])

  -- `sink.write` for each matched result, with their count so far
  unfoldable pub write_or_raise : ℕ → Sink → List (Result F) → Except ℕ × Sink
  unfolding line_or_raise write_bytes
  write_or_raise count sink [] = (ok count, sink)
  write_or_raise count sink (r ∷ rs) = elim r.matched [
    | false ↦ write_or_raise count sink rs
    | true ↦ elim (line_or_raise r) [
      | raise x ↦ (raise x, sink)
      | ok line ↦ write_or_raise (count + 1) (write_bytes sink line) rs
    ]
  ]

module _ {F : Floats} {E : Env F} (P : Processor E) (proxies : List String) where
  -- `if "sink" not in state`
  unfoldable pub opened : Worker E → Worker E
  unfolding open_sink
  opened s = elim s.sink [
    | none ↦ record s { sink = some (open_sink default_flush_bytes s.file) }
    | some sink ↦ s
  ]

  -- `if "proxy_pool" not in state`: the pool is set before the limiter is made, which may raise
  unfoldable pub limited : Stateful (Worker E) (Unit {0})
  unfolding pool_for build_rate_limiter
  limited s = elim s.proxy_pool [
    | some pool ↦ (ok tt, s)
    | none ↦
        let s' = record s { proxy_pool = some (pool_for proxies) } in
        elim (build_rate_limiter P.config) [
          | raise x ↦ (raise x, s')
          | ok l ↦ (ok tt, record s' { rate_limiter = some l })
        ]
  ]

  -- the worker after a batch: its pool and its limiter are shared with the processor
  abbrev pub after_machine : Worker E → Machine E → Worker E
  after_machine s m = record s {
    proxy_pool = some m.pool;
    rate_limiter = some m.limiter;
    world = m.world;
  }

  -- `_go`
  unfoldable pub go : List (Task F) → Stateful (Worker E) (List (Result F))
  unfolding run_batch
  go batch s = elim s.proxy_pool [
    | none ↦ (raise key_error, s)
    | some pool ↦ elim s.rate_limiter [
      | none ↦ (raise key_error, s)
      | some limiter ↦
          let (r, m) =
            run_batch P batch (record { pool = pool; limiter = limiter; world = s.world }) in
          (r, after_machine s m)
    ]
  ]

  module _ (dumps : Value F → Except Bytes) (filename : String) where
    -- the sink that was written and committed, and the message
    abbrev pub report_batch :
        ℕ → List (Result F) → Worker E → ℕ → Sink → Except (ControlMessage F) × Worker E
    report_batch chunk_id results s count written =
        let (offset, sink) = commit written in
        (
          ok (record {
            chunk_id = chunk_id;
            worker_file = filename;
            offset = offset;
            count = count;
            stats = compute_batch_stats results default_sample_cap;
          }),
          record s { sink = some sink },
        )

    -- the lines behind `_go`: a result that cannot be serialized ends the batch without a commit
    unfoldable pub write_batch : ℕ → List (Result F) → Stateful (Worker E) (ControlMessage F)
    unfolding write_or_raise commit compute_batch_stats
    write_batch chunk_id results s = elim s.sink [
      | none ↦ (raise key_error, s)
      | some sink ↦
          let (r, written) = write_or_raise dumps 0 sink results in
          elim r [
            | raise x ↦ (raise x, record s { sink = some written })
            | ok count ↦ report_batch chunk_id results s count written
          ]
    ]

    -- _spawn_run_batch
    unfoldable pub spawn_run_batch : ℕ × List (Task F) → Stateful (Worker E) (ControlMessage F)
    unfolding opened limited go write_batch
    spawn_run_batch (chunk_id, batch) s =
        (limited then (λ _. go batch) then write_batch chunk_id) (opened s)
