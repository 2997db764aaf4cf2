-- ===== src/Engine/Spawn/Batch.antt =====
-- A batch of a worker of src/bulk_http/engine/spawn.py, and the worker's file.
use bulk_http.Prelude.{
  ℕ, ◌<◌, ◌≡◌, ◌⊎◌, refl, ap, sym, ◌∙◌, subst, arith, String, none, some, List, [], ◌++◌, length,
  append-nil, inl, inr, Option-cases,
}
use bulk_http.Except.{Error, Except, ok, raise}
use bulk_http.Effects.{Stateful, ◌then◌}
use bulk_http.Effects.Ensures.{Ensures, Ensures-then, Ensures-any}
use bulk_http.Floats.{Floats}
use bulk_http.Bytes.{Bytes}
use bulk_http.Value.{Value}
use bulk_http.Models.{Task, Result}
use bulk_http.Net.Transport.{Env}
use bulk_http.Concurrency.Processor.{Processor}
use bulk_http.Concurrency.Processor.Passes.{SameIds}
use bulk_http.Sinks.Ndjson.{Sink, open_sink, commit}
use bulk_http.Sinks.Ndjson.Buffering.{taken}
use bulk_http.Metrics.{compute_batch_stats, default_sample_cap}
use bulk_http.Engine.Control.{ControlMessage}
use bulk_http.Engine.Executor.Ledger.{matched_only}
use bulk_http.Engine.Run.{default_flush_bytes}
use bulk_http.Engine.Spawn.{
  Worker, write_or_raise, opened, limited, go, report_batch, write_batch, spawn_run_batch,
}
use bulk_http.Engine.Spawn.Steps.{go-SameIds, both-sink}
use bulk_http.Engine.Spawn.Written.{
  AreLines, BreaksOff, Writes, write_or_raise-Writes, write_or_raise-flush_bytes,
}

-- a sink between two batches
abbrev pub IsFlushed : Sink → Type 0
IsFlushed k = (k.buffer ≡ []) × (0 < k.flush_bytes)

module _ {F : Floats} {E : Env F} where
  -- the bytes of the worker's file, opened or not
  abbrev pub content : Worker E → Bytes
  content s = elim s.sink [ none ↦ s.file | some k ↦ k.file ]

  -- a worker between two batches
  abbrev pub IsReady : Worker E → Type 0
  IsReady s = elim s.sink [ none ↦ Unit {0} | some k ↦ IsFlushed k ]

module _ {F : Floats} {E : Env F} (dumps : Value F → Except Bytes) (P : Processor E)
    (proxies : List String) (filename : String) where
  -- What a batch leaves of a worker whose file held `old`, and what it reports.
  pub Leaves : ℕ → List (Task F) → Bytes → Except (ControlMessage F) × Worker E → Type 0
  Leaves n batch old (ok m, s) =
      (results : List (Result F)) × (bs : Bytes) × SameIds P batch results
      × AreLines dumps (matched_only results) bs
      × (content s ≡ old ++ bs)
      × (m ≡ record {
        chunk_id = n;
        worker_file = filename;
        offset = length (content s);
        count = length (matched_only results);
        stats = compute_batch_stats results default_sample_cap;
      })
      × IsReady s
  Leaves n batch old (raise x, s) =
      ((content s ≡ old) × IsReady s)
      ⊎ ((results : List (Result F)) × (k : Sink) × SameIds P batch results
          × (s.sink ≡ some k)
          × BreaksOff dumps (matched_only results) old (taken k) x)

  -- what stands behind the writing
  report_written :
      ℕ → List (Result F) → Worker E → Except ℕ × Sink → Except (ControlMessage F) × Worker E
  report_written n results s out = elim out.0 [
    | raise x ↦ (raise x, record s { sink = some out.1 })
    | ok count ↦ report_batch P proxies dumps filename n results s count out.1
  ]

  report_written-Leaves :
      (n : ℕ) (batch : List (Task F)) (results : List (Result F)) (s : Worker E) (old : Bytes)
      (out : Except ℕ × Sink)
      → SameIds P batch results
      → 0 < out.1.flush_bytes
      → Writes dumps 0 (matched_only results) old out
      → Leaves n batch old (report_written n results s out)
  unfolding Leaves report_written commit Writes
  report_written-Leaves n batch results s old (raise x, k) same size broken =
      inr (results, k, same, refl, broken)
  report_written-Leaves n batch results s old (ok count, k) same size (bs, many, lines, all) = (
    results,
    bs,
    same,
    lines,
    all,
    ap
        (λ c. record {
          chunk_id = n;
          worker_file = filename;
          offset = (commit k).0;
          count = c;
          stats = compute_batch_stats results default_sample_cap;
        })
        (omega (arith, many)),
    (refl, size),
  )

  writes_sink :
      (n : ℕ) (results : List (Result F)) (s : Worker E) (k : Sink)
      → s.sink ≡ some k
      → write_batch P proxies dumps filename n results s
        ≡ report_written n results s (write_or_raise dumps 0 k results)
  unfolding write_batch report_written
  writes_sink n results s k e = rw (write_batch, e) refl

  write_batch-Leaves :
      (n : ℕ) (batch : List (Task F)) (results : List (Result F)) (s : Worker E) (k : Sink)
      → s.sink ≡ some k
      → IsFlushed k
      → SameIds P batch results
      → Leaves n batch k.file (write_batch P proxies dumps filename n results s)
  write_batch-Leaves n batch results s k e flushed same =
      let whole : taken k ≡ k.file = ap (λ b. k.file ++ b) flushed.0 ∙ append-nil k.file in
      let out = write_or_raise dumps 0 k results in
      let size : 0 < out.1.flush_bytes =
        omega (arith, write_or_raise-flush_bytes dumps 0 k results, flushed.1) in
      subst (Leaves n batch k.file) (sym (writes_sink n results s k e)) (
        report_written-Leaves n batch results s k.file out same size (
          subst (λ old. Writes dumps 0 (matched_only results) old out) whole
            (write_or_raise-Writes dumps 0 k results)))

  -- a worker with this sink, flushed
  Holding : Sink → Worker E → Type 0
  Holding k s = (s.sink ≡ some k) × IsFlushed k

  raised-Leaves :
      (n : ℕ) (batch : List (Task F)) (k : Sink) (s : Worker E) (x : Error)
      → Holding k s
      → Leaves n batch k.file (raise x, s)
  unfolding Leaves Holding
  raised-Leaves n batch k s x h = inl (rw (h.0) refl, rw (h.0) h.1)

  -- the rest of a batch, behind a step that leaves the sink alone
  then-Leaves :
      {A : Type 0} (n : ℕ) (batch : List (Task F)) (k : Sink) (R : A → Type 0)
      (f : A → Stateful (Worker E) (ControlMessage F)) (out : Except A × Worker E)
      → Ensures R (λ _. Unit {0}) out
      → Holding k out.1
      → ((a : A) (s : Worker E) → R a → Holding k s → Leaves n batch k.file (f a s))
      → Leaves n batch k.file (elim out.0 [ ok a ↦ f a out.1 | raise x ↦ (raise x, out.1) ])
  unfolding Ensures
  then-Leaves n batch k R f (ok a, s) r h next = next a s r h
  then-Leaves n batch k R f (raise x, s) r h next = raised-Leaves n batch k s x h

  opened-Holding :
      (s : Worker E)
      → IsReady s
      → (k : Sink) × (k.file ≡ content s) × Holding k (opened P proxies s)
  unfolding opened Holding open_sink
  opened-Holding s h = elim (Option-cases s.sink) [
    | inl e ↦ (
      open_sink default_flush_bytes s.file,
      rw e refl,
      rw (e, opened) (refl, (refl, omega arith)),
    )
    | inr (k, e) ↦ (k, rw e refl, rw (e, opened) (e, rw e at h))
  ]

  -- A worker's batch, the first or a later one: when it returns, its file has grown by one line for
  -- each result that matched, in order, of results that stand for the tasks one by one, and the
  -- message names the file, its length as the offset, and the number of these lines. When it
  -- raises, either the file is what it was, or the error is that of a matched result which cannot
  -- be serialized: then the lines of those in front of it are in the file or in the sink's buffer,
  -- with no commit and no message.
  pub spawn_run_batch-Leaves :
      (n : ℕ) (batch : List (Task F)) (s : Worker E)
      → IsReady s
      → Leaves n batch (content s) (spawn_run_batch P proxies dumps filename (n, batch) s)
  unfolding spawn_run_batch ◌then◌ Holding
  spawn_run_batch-Leaves n batch s h =
      let (k, same, holds) = opened-Holding s h in
      subst (λ old. Leaves n batch old (spawn_run_batch P proxies dumps filename (n, batch) s)) same
        (then-Leaves n batch k (SameIds P batch) (write_batch P proxies dumps filename n)
          ((limited P proxies then (λ _. go P proxies batch)) (opened P proxies s))
          (Ensures-then (λ _. Unit {0}) (SameIds P batch) (λ _. Unit {0}) (limited P proxies) _
            (opened P proxies s) (Ensures-any (limited P proxies (opened P proxies s)))
            (λ a s₁ t. go-SameIds P proxies batch s₁))
          (both-sink P proxies batch (opened P proxies s) ∙ holds.0, holds.1)
          (λ results s₁ same_ids h₁. write_batch-Leaves n batch results s₁ k h₁.0 h₁.1 same_ids))
