-- ===== src/Engine/Executor/Refinement.antt =====
-- The executor's loop in src/bulk_http/engine/executor.py against what a batch means to a campaign.
use bulk_http.Prelude.{
  Bool, true, false, ℕ, ◌+◌, ◌<◌, ◌≡◌, refl, ap, ap₂, sym, ◌∙◌, subst, arith, Option, none, some,
  List, [], ◌∷◌, ◌++◌, length, append-nil,
}
use bulk_http.Except.{Except, ok, raise}
use bulk_http.Effects.{◌then◌}
use bulk_http.Effects.Ensures.{Ensures}
use bulk_http.Floats.{Floats}
use bulk_http.Bytes.{Bytes}
use bulk_http.Models.{Task, Result}
use bulk_http.Net.Transport.{Env}
use bulk_http.Concurrency.Processor.{Machine, Processor}
use bulk_http.Concurrency.Processor.Passes.{SameIds}
use bulk_http.Concurrency.Deferral.{run_batch}
use bulk_http.Concurrency.Deferral.Batches.{PassFails, run_batch-SameIds}
use bulk_http.Sinks.Ndjson.{Sink, write, commit}
use bulk_http.Sinks.Ndjson.Buffering.{
  taken, write_all, lines, commit-write_all, write_all-flush_bytes,
}
use bulk_http.Metrics.{compute_batch_stats, default_sample_cap}
use bulk_http.Checkpoint.Store.{
  Entry, distributed_entry, committed_entry, record_distributed, commit_chunk,
}
use bulk_http.Checkpoint.Store.Codec.{Json}
use bulk_http.Checkpoint.Store.Loading.{written, append_entry-written}
use bulk_http.Engine.Stream.{Pulls, ends, breaks, item}
use bulk_http.Engine.Control.{
  ControlMessage, Totals, count_skipped, count_batch, on_control, announce,
}
use bulk_http.Engine.Executor.{
  Job, filename, write_matched, commit_batch, finish_batch, pull, skip, drive,
}
use bulk_http.Engine.Executor.Ledger.{
  Ledger, matched_only, handed, settled, passed_over, Runs, stops, source_fails, skips, settles,
  batch_fails,
}

module _ {F : Floats} (J : Json F) where
  -- the manifest's bytes, where there is a manifest
  abbrev pub manifest_of : Bool → List Entry → Option Bytes
  manifest_of false es = none
  manifest_of true es = some (written J es)

  pub write_matched_lem :
      (count : ℕ) (s : Sink) (rs : List (Result F))
      → write_matched J.dumps count s rs
        ≡ (count + length (matched_only rs), write_all J.dumps s (matched_only rs))
  unfolding write_matched write_all
  write_matched_lem count s [] = ground arith
  write_matched_lem count s (r ∷ rs) =
      ground
        (arith, write_matched_lem (count + 1) (write J.dumps s r) rs, write_matched_lem count s rs)

-- The state of an execution between two batches, and the ledger that it implements.
pub record Implements {F : Floats} {E : Env F} {W : Type 0} (J : Json F) (keeps : Bool)
    (j : Job E W) (l : Ledger F W) : Type 0 where
  pub flushed : j.sink.buffer ≡ []
  pub room : 0 < j.sink.flush_bytes
  pub file : j.sink.file ≡ l.output
  pub totals : j.coordinator.totals ≡ l.totals
  pub manifest : j.coordinator.manifest ≡ manifest_of J keeps l.entries

module _ {F : Floats} {W : Type 0} (J : Json F) (draw : ℕ → W → ℕ × W) where
  open J use {dumps}

  announce-manifest_of :
      (keeps : Bool) (n : ℕ) (t : Totals F W) (es : List Entry)
      → (announce dumps n (record { totals = t; manifest = manifest_of J keeps es })).manifest
        ≡ manifest_of J keeps (es ++ distributed_entry n ∷ [])
  unfolding announce record_distributed
  announce-manifest_of false n t es = refl
  announce-manifest_of true n t es = ap some (append_entry-written J es (distributed_entry n))

  on_control-manifest_of :
      (keeps : Bool) (message : ControlMessage F) (t : Totals F W) (es : List Entry)
      → (on_control draw dumps message
          (record { totals = t; manifest = manifest_of J keeps es })).manifest
        ≡ manifest_of J keeps (
            es
            ++ committed_entry (record {
              chunk_id = message.chunk_id;
              worker_file = message.worker_file;
              offset = message.offset;
              count = message.count;
            })
              ∷ [])
  unfolding on_control commit_chunk
  on_control-manifest_of false message t es = refl
  on_control-manifest_of true message t es = ap some (append_entry-written J es _)

module _ {F : Floats} {E : Env F} {W : Type 0} (J : Json F) (P : Processor E) (draw : ℕ → W → ℕ × W)
    (keeps : Bool) where
  open J use {dumps}

  skip-Implements :
      (j : Job E W) (l : Ledger F W)
      → Implements J keeps j l
      → Implements J keeps (skip P draw dumps j) (passed_over draw dumps l)
  skip-Implements j l h = record {
    flushed = h.flushed;
    room = h.room;
    file = h.file;
    totals = ap count_skipped h.totals;
    manifest = h.manifest;
  }

  pull-Implements :
      (n : ℕ) (j : Job E W) (l : Ledger F W)
      → Implements J keeps j l
      → Implements J keeps (pull P draw dumps n j) (handed draw dumps n l)
  unfolding handed announce
  pull-Implements n j l h = record {
    flushed = h.flushed;
    room = h.room;
    file = h.file;
    totals = h.totals;
    manifest =
        ap (λ m. (announce dumps n (record j.coordinator { manifest = m })).manifest) h.manifest
        ∙ announce-manifest_of J draw keeps n j.coordinator.totals l.entries;
  }

  commit_batch-Implements :
      (n : ℕ) (results : List (Result F)) (count : ℕ) (j : Job E W) (l : Ledger F W)
      → count ≡ length (matched_only results)
      → Implements J keeps j l
      → Implements J keeps
          (commit_batch P draw dumps n results
            (count, write_all dumps j.sink (matched_only results))
            j)
          (settled draw dumps n results l)
  unfolding commit_batch settled commit on_control
  commit_batch-Implements n results count j l e h =
      let rs = matched_only results in
      let few : length j.sink.buffer < j.sink.flush_bytes = ground (arith, h.flushed, h.room) in
      let (content, empty, offset, small) = commit-write_all dumps j.sink rs h.room few in
      let same : taken j.sink ++ lines dumps rs ≡ l.output ++ lines dumps rs =
        ap₂ (λ f b. (f ++ b) ++ lines dumps rs) h.file h.flushed
        ∙ ap (λ t. t ++ lines dumps rs) (append-nil l.output) in
      let written_at = (commit (write_all dumps j.sink rs)).0 in
      let stats = compute_batch_stats results default_sample_cap in
      let entry_at : ℕ → ℕ → Entry = λ o c.
        committed_entry (record { chunk_id = n; worker_file = filename; offset = o; count = c }) in
      let message : ControlMessage F = record {
        chunk_id = n;
        worker_file = filename;
        offset = written_at;
        count = count;
        stats = stats;
      } in
      let c = j.coordinator in
      record {
        flushed = empty;
        room = rw (write_all-flush_bytes dumps j.sink rs) h.room;
        file = content ∙ same;
        totals = ap₂ (λ k t. count_batch draw k stats t) e h.totals;
        manifest =
            ap (λ m. (on_control draw dumps message (record c { manifest = m })).manifest)
              h.manifest
            ∙ on_control-manifest_of J draw keeps message c.totals l.entries
            ∙ ap₂ (λ o k. manifest_of J keeps (l.entries ++ entry_at o k ∷ []))
                (offset ∙ ap length same) e;
      }

  finish_batch-Implements :
      (n : ℕ) (results : List (Result F)) (j : Job E W) (l : Ledger F W)
      → Implements J keeps j l
      → Implements J keeps (finish_batch P draw dumps n results j) (settled draw dumps n results l)
  unfolding finish_batch
  finish_batch-Implements n results j l h =
      subst
        (λ out.
          Implements J keeps (commit_batch P draw dumps n results out j)
            (settled draw dumps n results l))
        (sym (write_matched_lem J 0 j.sink results))
        (commit_batch-Implements n results _ j l (omega arith) h)

  with_machine-Implements :
      (m : Machine E) (j : Job E W) (l : Ledger F W)
      → Implements J keeps j l
      → Implements J keeps (record j { machine = m }) l
  with_machine-Implements m j l h = record {
    flushed = h.flushed;
    room = h.room;
    file = h.file;
    totals = h.totals;
    manifest = h.manifest;
  }

  -- what an execution comes to: a run of the ledger, and the state that it leaves
  abbrev pub Carries : Pulls F → Ledger F W → Except (Unit {0}) × Job E W → Type 0
  Carries s l out = (l' : Ledger F W) × Runs P draw dumps s l out.0 l' × Implements J keeps out.1 l'

  -- a batch that was pulled, by the outcome of `run_batch`
  after_batch :
      (s : Pulls F) (n : ℕ) (tasks : List (Task F)) (j : Job E W) (l : Ledger F W)
      (out : Except (List (Result F)) × Machine E)
      → Ensures (SameIds P tasks) (PassFails P) out
      → Implements J keeps j (handed draw dumps n l)
      → ((j' : Job E W) (l' : Ledger F W)
          → Implements J keeps j' l'
          → Carries s l' (drive P draw dumps s j'))
      → Carries (item (some (n, tasks)) s) l (elim out.0 as (λ _. Except (Unit {0}) × Job E W) [
        | ok results ↦
            drive P draw dumps s
              (finish_batch P draw dumps n results (record j { machine = out.1 }))
        | raise x ↦ (raise x, record j { machine = out.1 })
      ])
  unfolding Ensures
  after_batch s n tasks j l (ok results, m) ids h rest =
      let (l', run, h') = rest _ _ (
        finish_batch-Implements n results (record j { machine = m }) (handed draw dumps n l)
          (with_machine-Implements m j (handed draw dumps n l) h)) in
      (l', settles n tasks results ids run, h')
  after_batch s n tasks j l (raise x, m) fails h rest = (
    handed draw dumps n l,
    batch_fails n tasks x fails,
    with_machine-Implements m j (handed draw dumps n l) h,
  )

  -- Whatever the transport, the pool, the limiter and the predicate do, the executor's loop carries
  -- out a run of the ledger: from a state that implements one ledger it ends in a state that
  -- implements another, to which the ledger's runs lead with the same outcome, so that every batch
  -- is announced before it is run, and written, committed, counted and merged once when it was run;
  -- an error of the source or of a pass leaves nothing half done.
  pub drive-Runs :
      (s : Pulls F) (j : Job E W) (l : Ledger F W)
      → Implements J keeps j l
      → Carries s l (drive P draw dumps s j)
  unfolding drive ◌then◌
  drive-Runs ends j l h = (l, stops, h)
  drive-Runs (breaks x) j l h = (l, source_fails x, h)
  drive-Runs (item none s) j l h =
      let (l', run, h') =
        drive-Runs s (skip P draw dumps j) (passed_over draw dumps l) (skip-Implements j l h) in
      (l', skips run, h')
  drive-Runs (item (some (n, tasks)) s) j l h =
      after_batch s n tasks (pull P draw dumps n j) l (run_batch P tasks j.machine)
        (run_batch-SameIds P tasks j.machine) (pull-Implements n j l h) (drive-Runs s)
