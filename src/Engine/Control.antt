-- ===== src/Engine/Control.antt =====
-- src/bulk_http/engine/control.py, and what the coordinator of src/bulk_http/engine/core.py keeps:
-- the counters, the metrics and the checkpoint's manifest, if there is one.
use bulk_http.Prelude.{ℕ, ◌+◌, String, Option, none, some}
use bulk_http.Floats.{Floats}
use bulk_http.Bytes.{Bytes}
use bulk_http.Value.{Value}
use bulk_http.Metrics.{BatchStats, MetricsCollector, merge}
use bulk_http.Checkpoint.Store.{record_distributed, commit_chunk}

pub record ControlMessage (F : Floats) : Type 0 where
  pub chunk_id : ℕ
  pub worker_file : String
  pub offset : ℕ
  pub count : ℕ
  pub stats : BatchStats F

-- `counter` and `metrics` of Engine.run
pub record Totals (F : Floats) (W : Type 0) : Type 0 where
  pub skipped : ℕ
  pub matched : ℕ
  pub chunks : ℕ
  pub metrics : MetricsCollector F W

pub record Coordinator (F : Floats) (W : Type 0) : Type 0 where
  pub totals : Totals F W
  pub manifest : Option Bytes

module _ {F : Floats} {W : Type 0} where
  -- counter["skipped"] += 1
  abbrev pub count_skipped : Totals F W → Totals F W
  count_skipped t = record t { skipped = t.skipped + 1 }

  -- the counters and the metrics in `on_control`
  unfoldable pub count_batch : (ℕ → W → ℕ × W) → ℕ → BatchStats F → Totals F W → Totals F W
  unfolding merge
  count_batch draw count stats t = record {
    skipped = t.skipped;
    matched = t.matched + count;
    chunks = t.chunks + 1;
    metrics = merge draw t.metrics stats;
  }

  -- Engine.run's `on_control`
  unfoldable pub on_control :
      (ℕ → W → ℕ × W) → (Value F → Bytes) → ControlMessage F → Coordinator F W → Coordinator F W
  unfolding count_batch commit_chunk
  on_control draw dumps message c = record {
    totals = count_batch draw message.count message.stats c.totals;
    manifest = elim c.manifest [
      | none ↦ none
      | some manifest ↦ some (
          commit_chunk dumps manifest message.chunk_id message.worker_file message.offset
            message.count)
    ];
  }

  -- what `distributed` does before it yields a batch
  unfoldable pub announce : (Value F → Bytes) → ℕ → Coordinator F W → Coordinator F W
  unfolding record_distributed
  announce dumps chunk_id c = record c {
    manifest = elim c.manifest [
      | none ↦ none
      | some manifest ↦ some (record_distributed dumps manifest chunk_id)
    ];
  }
