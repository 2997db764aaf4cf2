-- ===== src/Engine/Executor/Ledger.antt =====
-- What the batches of src/bulk_http/engine/executor.py mean to a campaign, apart from buffers and
-- encodings.
use bulk_http.Prelude.{ℕ, none, some, List, [], ◌∷◌, ◌++◌, length, keep_if}
use bulk_http.Except.{Error, Except, ok, raise}
use bulk_http.Floats.{Floats}
use bulk_http.Bytes.{Bytes}
use bulk_http.Value.{Value}
use bulk_http.Models.{Task, Result}
use bulk_http.Net.Transport.{Env}
use bulk_http.Concurrency.Processor.{Processor}
use bulk_http.Concurrency.Processor.Passes.{SameIds}
use bulk_http.Concurrency.Deferral.Batches.{PassFails}
use bulk_http.Sinks.Ndjson.Buffering.{lines}
use bulk_http.Metrics.{compute_batch_stats, default_sample_cap}
use bulk_http.Checkpoint.Store.{Entry, distributed_entry, committed_entry}
use bulk_http.Engine.Stream.{Pulls, ends, breaks, item}
use bulk_http.Engine.Control.{Totals, count_skipped, count_batch}
use bulk_http.Engine.Executor.{filename}

-- What a campaign has to show, whatever its buffers and encodings.
pub record Ledger (F : Floats) (W : Type 0) : Type 0 where
  pub output : Bytes
  pub entries : List Entry
  pub totals : Totals F W

-- the results that are written
abbrev pub matched_only : {F : Floats} → List (Result F) → List (Result F)
matched_only rs = keep_if (λ r. r.matched) rs

module _ {F : Floats} {W : Type 0} (draw : ℕ → W → ℕ × W) (dumps : Value F → Bytes) where
  -- a batch is handed out
  unfoldable pub handed : ℕ → Ledger F W → Ledger F W
  handed n l = record l { entries = l.entries ++ distributed_entry n ∷ [] }

  -- a batch has these results: one line for each that matched, one entry, one chunk more
  unfoldable pub settled : ℕ → List (Result F) → Ledger F W → Ledger F W
  unfolding count_batch
  settled n results l =
      let output = l.output ++ lines dumps (matched_only results) in
      let count = length (matched_only results) in
      record {
        output = output;
        entries =
            l.entries
            ++ committed_entry (record {
              chunk_id = n;
              worker_file = filename;
              offset = length output;
              count = count;
            })
              ∷ [];
        totals = count_batch draw count (compute_batch_stats results default_sample_cap) l.totals;
      }

  -- a task is skipped
  abbrev pub passed_over : Ledger F W → Ledger F W
  passed_over l = record l { totals = count_skipped l.totals }

module _ {F : Floats} {E : Env F} {W : Type 0} (P : Processor E) (draw : ℕ → W → ℕ × W)
    (dumps : Value F → Bytes) where
  -- The runs of a stream of batches, from one ledger to another: every batch that is pulled is
  -- handed out and then settled with one result for each of its tasks, up to the end, an error of
  -- the stream, or a batch in which a pass raises.
  pub data Runs : Pulls F → Ledger F W → Except (Unit {0}) → Ledger F W → Type 0 where
    stops : {l : Ledger F W} → Runs ends l (ok tt) l
    source_fails : {l : Ledger F W} (x : Error) → Runs (breaks x) l (raise x) l
    skips :
        {s : Pulls F} {l l' : Ledger F W} {r : Except (Unit {0})}
        → Runs s (passed_over draw dumps l) r l'
        → Runs (item none s) l r l'
    settles :
        {s : Pulls F} {l l' : Ledger F W} {r : Except (Unit {0})} (n : ℕ) (tasks : List (Task F))
        (results : List (Result F))
        → SameIds P tasks results
        → Runs s (settled draw dumps n results (handed draw dumps n l)) r l'
        → Runs (item (some (n, tasks)) s) l r l'
    batch_fails :
        {s : Pulls F} {l : Ledger F W} (n : ℕ) (tasks : List (Task F)) (x : Error)
        → PassFails P x
        → Runs (item (some (n, tasks)) s) l (raise x) (handed draw dumps n l)
