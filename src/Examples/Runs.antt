-- ===== src/Examples/Runs.antt =====
-- A campaign of three tasks in two batches, of which one host is denied.
use bulk_http.Prelude.{
  ℕ, ◌+◌, ◌≡◌, refl, arith, true, false, none, some, List, [], ◌∷◌, ◌==◌, string_keys, nat_keys,
}
use bulk_http.Prelude.Int.{pos}
use bulk_http.Except.{ok, ◌>>=◌}
use bulk_http.Floats.Millis.{millis}
use bulk_http.Models.{Task, bare_request}
use bulk_http.Config.{EngineConfig, default_config}
use bulk_http.Net.Transport.{RawResponse, Env}
use bulk_http.Net.Fake.{fake_env, constant, perform}
use bulk_http.Concurrency.Processor.{Processor, Machine, unlimited}
use bulk_http.Engine.Campaign.{Disk, fresh}
use bulk_http.Engine.Stream.{Stream, of_list}
use bulk_http.Engine.Stream.{batches, Pulls}
use bulk_http.Engine.Stream.Eager.{collect, batches-collect}
use bulk_http.Engine.Prepare.{prepare, distributed}
use bulk_http.Concurrency.Chunking.{chunk_batches}
use bulk_http.Engine.Executor.{Job, drive}
use bulk_http.Engine.Executor.Ledger.{Ledger}
use bulk_http.Engine.Executor.Refinement.{Implements, Carries, drive-Runs}
use bulk_http.Engine.Run.{compliance, new_job, no_totals, Outside, RunSummary, run}
use bulk_http.Engine.Run.Resumed.{workspace_of}
use bulk_http.Engine.Run.CrashSafe.{pulls_of, Leaves, run-Leaves}
use bulk_http.Engine.Run.Rerun.{rerun_lem, first_run, second_run}
use bulk_http.Engine.Control.{announce}
use bulk_http.Metrics.{count_key, sample, sample_latency, new_collector}
use bulk_http.Checkpoint.Store.{load_lines, load}
use bulk_http.Checkpoint.Store.Loading.{written}
use bulk_http.Checkpoint.Resume.{resume_files}
use bulk_http.Compliance.Filter.{host_matches, is_allowed, apply_headers}
use bulk_http.Bytes.{lines_of}
use bulk_http.Dict.{get, put, tally, add}
use bulk_http.Net.Retry.{is_transient, attempt_once, attempts, deadline_for, perform_with_retries}
use bulk_http.Effects.{◌then◌, lift}
use bulk_http.Evaluate.{status_matches, apply_predicate}
use bulk_http.Decompress.{decompress_fragment}
use bulk_http.Texts.{ends_with}
use bulk_http.Sinks.Ndjson.{open_sink}
use bulk_http.Examples.Matching.{texts, libraries}
use bulk_http.Examples.Codec.{codec}

abbrev pub E : Env millis
E = fake_env millis 0

abbrev found : RawResponse millis
found = record {
  status = some 200;
  url = "https://a.test/";
  headers = [];
  fragment = [];
  content_encoding = none;
  truncated = false;
  elapsed = some 120;
  error = none;
}

abbrev config : EngineConfig millis
config = record default_config {
  chunk_size = pos 1;
  denylist = "b.test" ∷ [];
  checkpoint = some "manifest.ndjson";
}

abbrev pub processor : Processor E
processor = record {
  config = config;
  libraries = libraries;
  predicate = none;
  robots = none;
  domain = λ url. ok "a.test";
  backoff_base = 200;
  backoff_cap = 10_000;
}

-- random numbers and a clock that stands still
abbrev outside : Outside millis ℕ
outside = record {
  texts = texts;
  hostname = λ url. elim (url == "https://b.test/") [
    | true ↦ ok (some "b.test")
    | false ↦ ok (some "a.test")
  ];
  json = codec;
  draw = λ seen calls. (0, calls + 1);
  monotonic = λ w. (0, w);
  ceil = λ x. pos x;
}

abbrev pub tasks : List (Task millis)
tasks =
    record { source_id = 0; request = bare_request "https://a.test/" }
    ∷ record { source_id = 1; request = bare_request "https://b.test/" }
    ∷ record { source_id = 2; request = bare_request "https://a.test/next" }
    ∷ []

abbrev source : Stream (Task millis)
source = of_list tasks

unfoldable abbrev pub machine : Machine E
unfolding constant
machine = record {
  pool = none;
  limiter = unlimited;
  world = record { transport = constant found; now = 0 };
}

abbrev new_disk : Disk
new_disk = record { manifest = []; file = [] }

run-Leaves_example :
    Leaves outside processor "out" "" source [] []
      (run outside processor "out" "" source (ok machine) 0 (workspace_of codec new_disk))
run-Leaves_example =
    run-Leaves outside processor "out" "" source [] [] new_disk (ok machine) 0 refl fresh

abbrev summary : RunSummary millis
summary = record {
  chunks = 2;
  matched = 2;
  skipped = 1;
  out_dir = "out";
  checkpoint = some "manifest.ndjson";
  metrics = some (record {
    total = 2;
    matched = 2;
    by_status = (200, 2) ∷ [];
    errors = [];
    p50 = 120;
    p95 = 120;
    p99 = 120;
    throughput = 0;
    elapsed_wall = 0;
  });
}

returns :
    (run outside processor "out" "" source (ok machine) 0 (workspace_of codec new_disk)).0
    ≡ ok summary
unfolding run announce count_key sample sample_latency new_collector load_lines load written
    resume_files host_matches is_allowed apply_headers lines_of get put tally add is_transient
    attempt_once attempts deadline_for perform_with_retries constant perform ◌then◌ lift
    status_matches apply_predicate decompress_fragment ends_with
returns = refl

rerun_lem_example :
    ((second_run outside processor "out" "" source [] [] new_disk
        (ok machine)
        (ok machine)
        0
        0).1.files
      ≡ (first_run outside processor "out" "" source [] [] new_disk
          (ok machine)
          (ok machine)
          0
          0).1.files)
    × ((s' : RunSummary millis)
        → (second_run outside processor "out" "" source [] [] new_disk
            (ok machine)
            (ok machine)
            0
            0).0
          ≡ ok s'
        → (s'.chunks ≡ 0) × (s'.matched ≡ 0))
rerun_lem_example =
    rerun_lem outside processor "out" "" source [] [] new_disk (ok machine) (ok machine) 0 0 summary
      refl fresh returns

abbrev pulls : Pulls millis
pulls = pulls_of outside processor "out" "" source []

abbrev job : Job E ℕ
unfolding machine
job =
    new_job outside processor "out" "" machine (no_totals outside processor "out" "" 0 0) (some [])
      (workspace_of codec new_disk)

abbrev ledger : Ledger millis ℕ
ledger = record { output = []; entries = []; totals = no_totals outside processor "out" "" 0 0 }

job-Implements : Implements codec true job ledger
unfolding job new_job open_sink get written
job-Implements = record {
  flushed = refl;
  room = omega arith;
  file = refl;
  totals = refl;
  manifest = refl;
}

drive-Runs_example :
    Carries codec processor
      (outside.draw)
      true
      pulls
      ledger
      (drive processor (outside.draw) (codec.dumps) pulls job)
drive-Runs_example = drive-Runs codec processor (outside.draw) true pulls job ledger job-Implements

batches-collect_example :
    collect
      (batches texts (compliance config) "" (outside.hostname) (0 ∷ []) (pos 1) (of_list tasks))
      0
    ≡ (prepare texts (compliance config) "" (outside.hostname) tasks 0 >>= λ kept.
        chunk_batches kept.0 (pos 1) >>= λ cut. ok (distributed (0 ∷ []) 0 cut, kept.1))
batches-collect_example =
    batches-collect texts (compliance config) "" (outside.hostname) (0 ∷ []) (pos 1) tasks refl
