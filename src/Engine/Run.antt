-- ===== src/Engine/Run.antt =====
-- Engine.run of src/bulk_http/engine/core.py with the executor of one process, which the engine
-- makes for one worker, and build_rate_limiter of src/bulk_http/engine/ratelimit_support.py.
pub mod Resumed
pub mod CrashSafe
pub mod Rerun
use bulk_http.Prelude.{
  ℕ, String, Bool, true, false, Option, none, some, List, [], ◌∷◌, not, ◌==◌, string_keys,
}
use bulk_http.Prelude.Int.{ℤ}
use bulk_http.Except.{Except, ok, raise, ◌>>=◌}
use bulk_http.Floats.{Floats}
use bulk_http.Bytes.{Bytes}
use bulk_http.Dict.{get_or, put}
use bulk_http.Models.{Task}
use bulk_http.Texts.{Texts}
use bulk_http.Config.{EngineConfig, or_default}
use bulk_http.Net.Transport.{Env}
use bulk_http.Proxies.Pool.{ProxyPool, new_pool}
use bulk_http.Proxies.RateLimit.{new_limiter}
use bulk_http.Proxies.Adaptive.{new_adaptive}
use bulk_http.Compliance.Filter.{ComplianceFilter}
use bulk_http.Concurrency.Processor.{Limiter, unlimited, fixed, adaptive, Machine, Processor}
use bulk_http.Sinks.Ndjson.{open_sink, close}
use bulk_http.Metrics.{new_collector}
use bulk_http.Metrics.Snapshot.{MetricsSnapshot, snapshot}
use bulk_http.Checkpoint.Store.Codec.{Json}
use bulk_http.Checkpoint.Resume.{Files, resume}
use bulk_http.Engine.Stream.{Stream, batches}
use bulk_http.Engine.Control.{Totals}
use bulk_http.Engine.Executor.{filename, Job, drive}

pub record RunSummary (F : Floats) : Type 0 where
  pub chunks : ℕ
  pub matched : ℕ
  pub skipped : ℕ
  pub out_dir : String
  pub checkpoint : Option String
  pub metrics : Option (MetricsSnapshot F)

-- What a run finds and leaves on the disk: the checkpoint's file and the output directory.
pub record Workspace : Type 0 where
  pub manifest : Bytes
  pub files : Files

-- Engine._compliance
unfoldable pub compliance : {F : Floats} → EngineConfig F → ComplianceFilter
compliance c = record {
  allowlist = c.allowlist;
  denylist = c.denylist;
  identity_header = c.identity_header;
  authorization = c.authorization;
}

unfoldable pub build_rate_limiter : {F : Floats} → EngineConfig F → Except (Limiter F)
unfolding new_adaptive new_limiter
build_rate_limiter {F} c = elim c.adaptive_rate [
  | some rates ↦ ok (adaptive (new_adaptive rates))
  | none ↦ elim c.per_domain_rate_limit [
    | some rate ↦ new_limiter F rate >>= λ l. ok (fixed l)
    | none ↦ ok unlimited
  ]
]

module _ {F : Floats} where
  -- `ProxyPool(proxies) if proxies else None`
  unfoldable pub pool_for : List String → Option (ProxyPool F)
  unfolding new_pool
  pool_for [] = none
  pool_for (p ∷ ps) =
      some (new_pool F (p ∷ ps) 20 (F.div_f F.one_f (F.of_nat 2)) 5 (F.of_nat 60) (F.of_nat 30))

  -- Engine._default_executor, for one worker: the state that its executor starts from
  unfoldable pub default_executor :
      {E : Env F} → EngineConfig F → List String → E.World → Except (Machine E)
  unfolding pool_for build_rate_limiter
  default_executor c proxies world = build_rate_limiter c >>= λ limiter.
      ok (record { pool = pool_for proxies; limiter = limiter; world = world })

-- `if self._config.checkpoint`
abbrev pub has_checkpoint : Option String → Bool
has_checkpoint none = false
has_checkpoint (some path) = not (path == "")

-- `_DEFAULT_FLUSH_BYTES` and the default of `reservoir_size`
abbrev pub default_flush_bytes : ℕ
default_flush_bytes = 65_536

abbrev pub default_reservoir : ℕ
default_reservoir = 10_000

-- What a run uses of the standard library and of orjson: URLs, JSON, random indices, the clock and
-- the rounding of a rank.
pub record Outside (F : Floats) (W : Type 0) : Type 0 where
  pub texts : Texts
  pub hostname : String → Except (Option String)
  pub json : Json F
  pub draw : ℕ → W → ℕ × W
  pub monotonic : W → F.Float × W
  pub ceil : F.Float → ℤ

module _ {F : Floats} {E : Env F} {W : Type 0} (O : Outside F W) (P : Processor E)
    (out_dir needle : String) where
  -- counter and metrics at the start, where the clock shows `now`
  abbrev pub no_totals : F.Float → W → Totals F W
  no_totals now w = record {
    skipped = 0;
    matched = 0;
    chunks = 0;
    metrics = new_collector default_reservoir now w;
  }

  -- the summary, where the clock shows `now`
  unfoldable pub summarize : Totals F W → RunSummary F
  unfolding snapshot
  summarize t =
      let (now, w) = O.monotonic t.metrics.random in
      record {
        chunks = t.chunks;
        matched = t.matched;
        skipped = t.skipped;
        out_dir = out_dir;
        checkpoint = P.config.checkpoint;
        metrics = some (snapshot O.ceil now t.metrics);
      }

  -- what an execution leaves on the disk, its sink closed, and the outcome of the run
  unfoldable pub conclude :
      Workspace → Except (Unit {0}) × Job E W → Except (RunSummary F) × Workspace
  unfolding summarize close
  conclude disk out = (
    out.0 >>= λ _. ok (summarize out.1.coordinator.totals),
    record {
      manifest = or_default out.1.coordinator.manifest disk.manifest;
      files = put filename (close out.1.sink) disk.files;
    },
  )

  -- the job of an executor that starts from this machine
  unfoldable pub new_job : Machine E → Totals F W → Option Bytes → Workspace → Job E W
  unfolding open_sink
  new_job machine totals manifest disk = record {
    machine = machine;
    sink = open_sink default_flush_bytes (get_or filename [] disk.files);
    coordinator = record { totals = totals; manifest = manifest };
  }

  -- the run after the resume: `committed` is what it skips
  unfoldable pub run_from :
      Stream (Task F)
      → Except (Machine E)
      → Totals F W
      → Option Bytes
      → List ℕ
      → Workspace
      → Except (RunSummary F) × Workspace
  unfolding new_job drive conclude batches compliance
  run_from source (raise x) totals manifest committed disk = (raise x, disk)
  run_from source (ok machine) totals manifest committed disk = conclude disk (
      drive P O.draw O.json.dumps
        (batches O.texts (compliance P.config) needle O.hostname committed P.config.chunk_size
          source)
        (new_job machine totals manifest disk))

  -- `_resume`, and the rest of the run on the files that it leaves
  unfoldable pub resume_and_run :
      Stream (Task F)
      → Except (Machine E)
      → Totals F W
      → Workspace
      → Except (List ℕ × Files)
      → Except (RunSummary F) × Workspace
  unfolding run_from
  resume_and_run source machine totals disk (raise x) = (raise x, disk)
  resume_and_run source machine totals disk (ok (committed, files)) =
      run_from source machine totals (some disk.manifest) committed (record disk { files = files })

  -- Engine.run, from the state of the random numbers and the clock
  unfoldable pub run :
      Stream (Task F) → Except (Machine E) → W → Workspace → Except (RunSummary F) × Workspace
  unfolding resume_and_run resume
  run source machine w disk =
      let (now, w') = O.monotonic w in
      elim (has_checkpoint P.config.checkpoint) [
        | false ↦ run_from source machine (no_totals now w') none [] disk
        | true ↦
            resume_and_run source machine (no_totals now w') disk
              (resume O.json.loads disk.manifest disk.files)
      ]
