-- ===== src/Examples/Batches.antt =====
-- Batches cut, run, written and counted.
use bulk_http.Prelude.{
  ℕ, ◌+◌, ◌<◌, ◌≡◌, true, false, List, [], ◌∷◌, ◌++◌, none, some, length, concat, string_keys,
  nat_keys, arith,
}
use bulk_http.Prelude.Int.{pos}
use bulk_http.Except.{ok}
use bulk_http.Effects.Ensures.{Ensures}
use bulk_http.Floats.Millis.{millis}
use bulk_http.Value.{Value}
use bulk_http.Models.{Result, Task, bare_request}
use bulk_http.Config.{default_config}
use bulk_http.Net.Transport.{RawResponse, Env}
use bulk_http.Net.Fake.{fake_env, constant}
use bulk_http.Concurrency.Chunking.{chunk_batches}
use bulk_http.Concurrency.Chunking.Laws.{AreFull, chunk_batches_lem}
use bulk_http.Concurrency.InFlight.{map_batches}
use bulk_http.Concurrency.InFlight.Bounded.{Served, collects, map_batches-Served}
use bulk_http.Concurrency.Processor.{Processor, Machine, adaptive}
use bulk_http.Concurrency.Deferral.{run_batch}
use bulk_http.Concurrency.Processor.Passes.{SameIds}
use bulk_http.Concurrency.Deferral.Batches.{PassFails, run_batch-SameIds}
use bulk_http.Proxies.Adaptive.{AdaptiveRateLimiter}
use bulk_http.Examples.Limits.{config}
use bulk_http.Examples.Matching.{libraries}
use bulk_http.Sinks.Ndjson.{Sink, commit}
use bulk_http.Sinks.Ndjson.Buffering.{taken, write_all, lines, commit-write_all}
use bulk_http.Metrics.{new_collector}
use bulk_http.Metrics.Counts.Merged.{Exact, merge_all, merge_all-new_collector}

chunk_batches_lem_example :
    (batches : List (List ℕ)) × (chunk_batches (5 ∷ 6 ∷ 7 ∷ []) (pos 2) ≡ ok batches)
    × (concat batches ≡ 5 ∷ 6 ∷ 7 ∷ [])
    × AreFull 2 batches
chunk_batches_lem_example = chunk_batches_lem (5 ∷ 6 ∷ 7 ∷ []) 2 (omega arith)

abbrev three : List ℕ
three = 5 ∷ 6 ∷ 7 ∷ []

map_batches-Served_example :
    Served 2 [] (map_batches (pos 2) three) × (collects (map_batches (pos 2) three) ≡ three)
map_batches-Served_example = map_batches-Served 1 three

abbrev result : ℕ → ℕ → Result millis
result source_id status = record {
  source_id = source_id;
  url = "https://a.test/";
  status = some status;
  matched = true;
  content = [];
  meta = [];
  error = none;
  elapsed = some 120;
}

-- a serializer that writes one byte for each value
abbrev short : Value millis → List ℕ
short v = 48 ∷ []

abbrev sink : Sink
sink = record { file = 49 ∷ 10 ∷ []; buffer = []; flush_bytes = 3 }

abbrev two_results : List (Result millis)
two_results = result 0 200 ∷ result 1 404 ∷ []

commit-write_all_example :
    ((commit (write_all short sink two_results)).1.file ≡ taken sink ++ lines short two_results)
    × ((commit (write_all short sink two_results)).1.buffer ≡ [])
    × ((commit (write_all short sink two_results)).0
        ≡ length (taken sink ++ lines short two_results))
    × (length (write_all short sink two_results).buffer < 3)
commit-write_all_example = commit-write_all short sink two_results (omega arith) (omega arith)

-- the random index is always the first
abbrev draw : ℕ → ℕ → ℕ × ℕ
draw seen calls = (0, calls + 1)

merge_all-new_collector_example :
    Exact {F = millis} draw 1
      (concat (two_results ∷ two_results ∷ []))
      (merge_all draw 256 (new_collector {F = millis} 1 0 0) (two_results ∷ two_results ∷ []))
merge_all-new_collector_example =
    merge_all-new_collector {F = millis} draw 1 256 0 0 (two_results ∷ two_results ∷ [])

-- a server that always answers 429, under an adaptive limiter with three passes
abbrev E : Env millis
E = fake_env millis 0

abbrev limited : RawResponse millis
limited = record {
  status = some 429;
  url = "https://a.test/";
  headers = [];
  fragment = [];
  content_encoding = none;
  truncated = false;
  elapsed = none;
  error = none;
}

abbrev limiter : AdaptiveRateLimiter millis
limiter = record { config = config; rates = []; next = []; successes = []; fail_at_min = [] }

abbrev machine : Machine E
unfolding constant
machine = record {
  pool = none;
  limiter = adaptive limiter;
  world = record { transport = constant limited; now = 0 };
}

abbrev processor : Processor E
processor = record {
  config = default_config;
  libraries = libraries;
  predicate = none;
  robots = none;
  domain = λ url. ok "a.test";
  backoff_base = 200;
  backoff_cap = 10_000;
}

abbrev tasks : List (Task millis)
tasks =
    record { source_id = 0; request = bare_request "https://a.test/" }
    ∷ record { source_id = 1; request = bare_request "https://a.test/next" }
    ∷ []

run_batch-SameIds_example :
    Ensures (SameIds processor tasks) (PassFails processor) (run_batch processor tasks machine)
run_batch-SameIds_example = run_batch-SameIds processor tasks machine
