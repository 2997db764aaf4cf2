-- ===== src/Engine/Run/CrashSafe.antt =====
-- The disk that a run of src/bulk_http/engine/core.py finds and leaves, with a checkpoint.
use bulk_http.Prelude.{
  ℕ, ◌+◌, ◌≡◌, refl, ap, ap₂, sym, ◌∙◌, subst, arith, String, true, some, List, [], ◌∷◌, ◌++◌,
  length, nat_keys, string_keys, append-nil,
}
use bulk_http.Except.{Error, Except, ok, raise, ◌>>=◌}
use bulk_http.Floats.{Floats}
use bulk_http.Bytes.{Bytes}
use bulk_http.Dict.{get, put}
use bulk_http.Models.{Task}
use bulk_http.Config.{or_default}
use bulk_http.Net.Transport.{Env}
use bulk_http.Concurrency.Processor.{Machine, Processor}
use bulk_http.Sinks.Ndjson.{open_sink, close}
use bulk_http.Checkpoint.Store.Loading.{written}
use bulk_http.Checkpoint.Resume.{resume}
use bulk_http.Engine.Campaign.{Disk, Batch, ids, committed_ids, Reaches}
use bulk_http.Engine.Campaign.Durable.{Reaches-Holds}
use bulk_http.Engine.Stream.{Stream, Pulls, batches}
use bulk_http.Engine.Stream.Fresh.{ids_of, AreNew, distribute-AreNew}
use bulk_http.Engine.Executor.{filename, Job, drive}
use bulk_http.Engine.Executor.Ledger.{Ledger}
use bulk_http.Engine.Executor.Refinement.{Implements, drive-Runs}
use bulk_http.Engine.Executor.Crashes.{
  left_of, left_of-nil, Advanced, disk_of, counts, Runs-Advanced,
}
use bulk_http.Engine.Run.Resumed.{workspace_of, Resumed, resume-Resumed}
use bulk_http.Engine.Run.{
  RunSummary, Workspace, Outside, compliance, has_checkpoint, summarize, conclude, new_job,
  run_from, resume_and_run, run, no_totals,
}

pub left_of-append :
    (bs cs : List Batch) (partial : Bytes)
    → left_of cs (left_of bs partial) ≡ left_of (bs ++ cs) partial
left_of-append [] cs partial = refl
left_of-append (b ∷ bs) cs partial = left_of-nil cs

from_zero : (n : ℕ) → 0 + n ≡ n
from_zero n = omega arith

-- what the outcome of an execution tells of the outcome of its run
returned_ok {ℓ} :
    {A : Type ℓ} (r : Except (Unit {0})) (v s : A)
    → (r >>= λ _. ok v) ≡ ok s
    → (r ≡ ok tt) × (v ≡ s)
returned_ok (ok u) v s e = (refl, ground (arith, e))
returned_ok (raise x) v s e = absurd (ground (arith, e))

module _ {F : Floats} {E : Env F} {W : Type 0} (O : Outside F W) (P : Processor E)
    (out_dir needle : String) (source : Stream (Task F)) where
  -- the batches of a run that skips these ids
  abbrev pub pulls_of : List ℕ → Pulls F
  pulls_of committed =
      batches O.texts (compliance P.config) needle O.hostname committed P.config.chunk_size source

  -- What a run leaves of a campaign in which `done` was committed, and what it says.
  pub record Leaves (done : List Batch) (partial : Bytes) (out : Except (RunSummary F) × Workspace)
      : Type 0 where
    pub disk : Disk
    pub more : List Batch
    pub rest : Bytes
    pub reached : Reaches filename (done ++ more) rest disk
    -- what no commit covers: as before, or nothing once a batch was committed
    pub leftover : rest ≡ left_of (done ++ more) partial
    pub left : out.1 ≡ workspace_of O.json disk
    -- the ids of the batches that were not committed
    pub left_over : List ℕ
    pub in_order : ids more ++ left_over ≡ ids_of (pulls_of (ids done))
    pub returned :
        (s : RunSummary F)
        → out.0 ≡ ok s
        → (s.chunks ≡ length more) × (s.matched ≡ counts more) × (left_over ≡ [])

  batches-AreNew : (committed : List ℕ) → AreNew committed (pulls_of committed)
  unfolding batches
  batches-AreNew committed = distribute-AreNew committed committed 0 _ (λ m le. refl)

  module _ (done : List Batch) (partial kept : Bytes) (d : Disk) (cut : kept ≡ left_of done partial)
      (h : Reaches filename done kept d) (machine : Machine E) (now : F.Float) (w : W) where
    abbrev first_job : Job E W
    unfolding new_job
    first_job =
        new_job O P out_dir needle machine (no_totals O P out_dir needle now w)
          (some (written O.json d.manifest)) (workspace_of O.json d)

    abbrev first_ledger : Ledger F W
    first_ledger = record {
      output = d.file;
      entries = d.manifest;
      totals = no_totals O P out_dir needle now w;
    }

    first-Implements : Implements O.json true first_job first_ledger
    unfolding new_job open_sink get
    first-Implements = record {
      flushed = refl;
      room = omega arith;
      file = refl;
      totals = refl;
      manifest = refl;
    }

    conclude-Leaves :
        (committed : List ℕ)
        → committed ≡ ids done
        → (out : Except (Unit {0}) × Job E W) (l' : Ledger F W) → Implements O.json true out.1 l'
        → Advanced done kept (pulls_of committed) out.0 first_ledger l'
        → Leaves done partial (conclude O P out_dir needle (workspace_of O.json d) out)
    unfolding conclude close put summarize
    conclude-Leaves committed same out l' i a = record {
      disk = disk_of l';
      more = a.more;
      rest = a.rest;
      reached = a.reached;
      leftover = a.leftover ∙ ap (left_of a.more) cut ∙ left_of-append done a.more partial;
      left =
          ap₂
            (λ m bs. record {
              manifest = or_default m (written O.json d.manifest);
              files = (filename, bs) ∷ [];
            })
            i.manifest (ap₂ ◌++◌ i.file i.flushed ∙ append-nil l'.output);
      left_over = a.left;
      in_order = a.in_order ∙ ap (λ ns. ids_of (pulls_of ns)) same;
      returned = λ s e.
          let (fine, it) = returned_ok out.0 _ s e in
          (
            ap (λ t. t.chunks) (sym it)
                ∙ ap (λ t. t.chunks) i.totals
                ∙ a.chunks
                ∙ from_zero (length a.more),
            ap (λ t. t.matched) (sym it)
                ∙ ap (λ t. t.matched) i.totals
                ∙ a.matched
                ∙ from_zero (counts a.more),
            a.complete fine,
          );
    }

    run_from-Leaves : Leaves done partial (
        run_from O P out_dir needle source
          (ok machine)
          (no_totals O P out_dir needle now w)
          (some (written O.json d.manifest))
          (committed_ids d)
          (workspace_of O.json d))
    unfolding run_from
    run_from-Leaves =
        let committed = committed_ids d in
        let (l', goes, i) =
          drive-Runs O.json P O.draw true (pulls_of committed) first_job first_ledger
            first-Implements in
        conclude-Leaves committed (Reaches-Holds h).listed
          (drive P O.draw (O.json.dumps) (pulls_of committed) first_job) l' i
          (Runs-Advanced P O.draw (O.json.dumps) done kept goes (batches-AreNew committed) h)

  nothing_run :
      (done : List Batch) (partial kept : Bytes) (d : Disk) (x : Error)
      → kept ≡ left_of done partial
      → Reaches filename done kept d
      → Leaves done partial (raise x, workspace_of O.json d)
  nothing_run done partial kept d x cut h = record {
    disk = d;
    more = [];
    rest = kept;
    reached = subst (λ bs. Reaches filename bs kept d) (sym (append-nil done)) h;
    leftover = cut ∙ ap (λ bs. left_of bs partial) (sym (append-nil done));
    left = refl;
    left_over = ids_of (pulls_of (ids done));
    in_order = refl;
    returned = λ s e. absurd (ground (arith, e));
  }

  resume_and_run-Leaves :
      (done : List Batch) (partial : Bytes) (d : Disk) (machine : Except (Machine E))
      (now : F.Float) (w : W) (r : Resumed O.json done partial d)
      → Leaves done partial (
          resume_and_run O P out_dir needle source machine
            (no_totals O P out_dir needle now w)
            (workspace_of O.json d)
            (ok (committed_ids r.disk, (filename, r.disk.file) ∷ [])))
  unfolding resume_and_run run_from
  resume_and_run-Leaves done partial d (raise x) now w r =
      subst
        (λ es.
          Leaves done partial (
            raise x,
            record { manifest = written O.json es; files = (filename, r.disk.file) ∷ [] },
          ))
        r.same (nothing_run done partial r.kept r.disk x r.cut r.reached)
  resume_and_run-Leaves done partial d (ok machine) now w r =
      subst
        (λ es. Leaves done partial (
          run_from O P out_dir needle source (ok machine) (no_totals O P out_dir needle now w)
            (some (written O.json es)) (committed_ids r.disk)
            (record { manifest = written O.json es; files = (filename, r.disk.file) ∷ [] })))
        r.same (run_from-Leaves done partial r.kept r.disk r.cut r.reached machine now w)

  run_resumes :
      (machine : Except (Machine E)) (w : W) (disk : Workspace)
      → has_checkpoint P.config.checkpoint ≡ true
      → run O P out_dir needle source machine w disk
        ≡ resume_and_run O P out_dir needle source machine
            (no_totals O P out_dir needle (O.monotonic w).0 (O.monotonic w).1)
            disk
            (resume O.json.loads disk.manifest disk.files)
  unfolding run
  run_resumes machine w disk on = rw (on, run) refl

  -- A run with a checkpoint, from any disk that crashes, resumes and runs of the campaign have left,
  -- leaves a disk that the campaign reaches, whether it returns or raises: the batches committed
  -- before stay, some more are committed behind them, the first of those that the source has beyond
  -- the committed ones, in order, and the output directory and the manifest hold these and no
  -- others. When the run returns, it has committed all of them, and its summary counts them and the
  -- results that they wrote.
  pub run-Leaves :
      (done : List Batch) (partial : Bytes) (d : Disk) (machine : Except (Machine E)) (w : W)
      → has_checkpoint P.config.checkpoint ≡ true
      → Reaches filename done partial d
      → Leaves done partial (run O P out_dir needle source machine w (workspace_of O.json d))
  run-Leaves done partial d machine w on h =
      let r = resume-Resumed O.json done partial d h in
      let (now, w') = O.monotonic w in
      subst (Leaves done partial)
        (sym (
          run_resumes machine w (workspace_of O.json d) on
          ∙ ap
              (resume_and_run O P out_dir needle source machine
                (no_totals O P out_dir needle now w') (workspace_of O.json d))
              r.returns))
        (resume_and_run-Leaves done partial d machine now w' r)
