-- ===== src/Engine/Executor.antt =====
-- InProcessExecutor of src/bulk_http/engine/executor.py: batches are pulled, run, written, committed
-- and reported, one after the other. The directory exists and no write to the disk fails.
pub mod Ledger
pub mod Refinement
pub mod Crashes
use bulk_http.Prelude.{
  ℕ, zero, suc, ◌+◌, String, Bool, true, false, Option, none, some, List, [], ◌∷◌,
}
use bulk_http.Except.{Except, ok, raise}
use bulk_http.Effects.{Stateful, ◌then◌, lift}
use bulk_http.Floats.{Floats}
use bulk_http.Bytes.{Bytes}
use bulk_http.Value.{Value}
use bulk_http.Models.{Task, Result}
use bulk_http.Net.Transport.{Env}
use bulk_http.Concurrency.Processor.{Machine, Processor, Run}
use bulk_http.Concurrency.Deferral.{run_batch}
use bulk_http.Sinks.Ndjson.{Sink, write, commit, close}
use bulk_http.Metrics.{compute_batch_stats, default_sample_cap}
use bulk_http.Engine.Stream.{Pulls, ends, breaks, item}
use bulk_http.Engine.Control.{ControlMessage, Coordinator, count_skipped, on_control, announce}

-- the file of InProcessExecutor
abbrev pub filename : String
filename = "worker-inproc.ndjson"

-- What an execution changes: the processor's state, the open sink and the coordinator.
pub record Job {F : Floats} (E : Env F) (W : Type 0) : Type 0 where
  pub machine : Machine E
  pub sink : Sink
  pub coordinator : Coordinator F W

-- the loop that writes the matched results, with their count so far
unfoldable pub write_matched :
    {F : Floats} → (Value F → Bytes) → ℕ → Sink → List (Result F) → ℕ × Sink
unfolding write
write_matched dumps count sink [] = (count, sink)
write_matched dumps count sink (r ∷ rs) = elim r.matched [
  | true ↦ write_matched dumps (count + 1) (write dumps sink r) rs
  | false ↦ write_matched dumps count sink rs
]

-- processor.run_batch(batch), in an execution
abbrev pub on_machine : {F : Floats} {E : Env F} {W A : Type 0} → Run E A → Stateful (Job E W) A
on_machine m j = let (r, machine) = m j.machine in (r, record j { machine = machine })

module _ {F : Floats} {E : Env F} {W : Type 0} (P : Processor E) (draw : ℕ → W → ℕ × W)
    (dumps : Value F → Bytes) where
  -- the commit of a batch whose matched results were written, and its report
  unfoldable pub commit_batch : ℕ → List (Result F) → ℕ × Sink → Job E W → Job E W
  unfolding commit compute_batch_stats on_control
  commit_batch chunk_id results (count, sink) j =
      let (offset, sink') = commit sink in
      record {
        machine = j.machine;
        sink = sink';
        coordinator =
            on_control draw dumps
              (record {
                chunk_id = chunk_id;
                worker_file = filename;
                offset = offset;
                count = count;
                stats = compute_batch_stats results default_sample_cap;
              })
              j.coordinator;
      }

  -- a batch that was run
  unfoldable pub finish_batch : ℕ → List (Result F) → Job E W → Job E W
  unfolding write_matched commit_batch
  finish_batch chunk_id results j =
      commit_batch chunk_id results (write_matched dumps 0 j.sink results) j

  -- a pull that skips a task
  abbrev pub skip : Job E W → Job E W
  skip j = record j {
    coordinator = record j.coordinator { totals = count_skipped j.coordinator.totals };
  }

  -- a pull that yields a batch
  abbrev pub pull : ℕ → Job E W → Job E W
  pull chunk_id j = record j { coordinator = announce dumps chunk_id j.coordinator }

  -- the loop of `_drive`
  unfoldable pub drive : Pulls F → Stateful (Job E W) (Unit {0})
  unfolding finish_batch run_batch
  drive ends j = (ok tt, j)
  drive (breaks x) j = (raise x, j)
  drive (item none batches) j = drive batches (skip j)
  drive (item (some (chunk_id, batch)) batches) j =
      (on_machine (run_batch P batch) then λ results j'.
      drive batches (finish_batch chunk_id results j'))
        (pull chunk_id j)
