-- ===== src/Engine/Run/Rerun.antt =====
-- A campaign of src/bulk_http/engine/core.py that is run again after it returned.
use bulk_http.Prelude.{
  ◌≡◌, refl, ap, ap₂, sym, ◌∙◌, subst, arith, String, true, List, [], ◌∷◌, ◌++◌, contains, nat_keys,
  append-nil, length,
}
use mathlib.Core.List.{map-append, append-eq-nil_iff}
use bulk_http.Except.{Except, ok}
use bulk_http.Floats.{Floats}
use bulk_http.Bytes.{Bytes}
use bulk_http.Models.{Task}
use bulk_http.Net.Transport.{Env}
use bulk_http.Concurrency.Processor.{Machine, Processor}
use bulk_http.Engine.Campaign.{Disk, Batch, ids, outputs, Reaches}
use bulk_http.Engine.Campaign.Durable.{Reaches-Holds, contains-append}
use bulk_http.Engine.Stream.{Stream, batches}
use bulk_http.Engine.Stream.Fresh.{ids_of, distribute-again}
use bulk_http.Engine.Executor.{filename}
use bulk_http.Engine.Executor.Crashes.{left_of, counts}
use bulk_http.Engine.Run.{RunSummary, Workspace, Outside, has_checkpoint, run}
use bulk_http.Engine.Run.Resumed.{workspace_of}
use bulk_http.Engine.Run.CrashSafe.{pulls_of, Leaves, run-Leaves}

left_of_twice :
    (bs : List Batch) (partial : Bytes) → left_of bs (left_of bs partial) ≡ left_of bs partial
left_of_twice [] partial = refl
left_of_twice (b ∷ bs) partial = refl

no_batches : (bs : List Batch) → ids bs ≡ [] → bs ≡ []
no_batches [] e = refl
no_batches (b ∷ bs) e = absurd cc

module _ {F : Floats} {E : Env F} {W : Type 0} (O : Outside F W) (P : Processor E)
    (out_dir needle : String) (source : Stream (Task F)) where
  nothing_left :
      (done more : List Batch)
      → ids more ≡ ids_of (pulls_of O P out_dir needle source (ids done))
      → ids_of (pulls_of O P out_dir needle source (ids (done ++ more))) ≡ []
  unfolding batches
  nothing_left done more e =
      let both : ids (done ++ more) ≡ ids done ++ ids more =
        map-append (λ b. b.chunk_id) done more in
      distribute-again (ids done) (ids (done ++ more)) 0 _
        (λ m i.
          ap (λ ns. contains ns m) both
          ∙ contains-append (ids done) (ids more) m
          ∙ ground (arith, i))
        (λ m i.
          ap (λ ns. contains ns m) both
          ∙ contains-append (ids done) (ids more) m
          ∙ ground (arith, ap (λ ns. contains ns m) e ∙ i))

  -- What a run leaves that had nothing to do.
  record Idle (done : List Batch) (partial : Bytes) (d : Disk)
      (out : Except (RunSummary F) × Workspace) : Type 0 where
    files : out.1.files ≡ (filename, d.file) ∷ []
    counted : (s : RunSummary F) → out.0 ≡ ok s → (s.chunks ≡ 0) × (s.matched ≡ 0)

  idle :
      (done : List Batch) (partial : Bytes) (d : Disk)
      → Reaches filename done (left_of done partial) d
      → (out : Except (RunSummary F) × Workspace)
      → ids_of (pulls_of O P out_dir needle source (ids done)) ≡ []
      → Leaves O P out_dir needle source done (left_of done partial) out
      → Idle done partial d out
  idle done partial d h out none l =
      let no_more : l.more ≡ [] = no_batches l.more ((append-eq-nil_iff.0 (l.in_order ∙ none)).0) in
      let stay : done ++ l.more ≡ done = ap (λ bs. done ++ bs) no_more ∙ append-nil done in
      let same : l.disk.file ≡ d.file =
        (Reaches-Holds l.reached).content
        ∙ ap₂ (λ bs t. outputs bs ++ t) stay
            (l.leftover
              ∙ ap (λ bs. left_of bs (left_of done partial)) stay
              ∙ left_of_twice done partial)
        ∙ sym (Reaches-Holds h).content in
      record {
        files = ap (λ w. w.files) l.left ∙ ap (λ t. (filename, t) ∷ []) same;
        counted = λ s e.
            let (chunks, matched, all) = l.returned s e in
            (chunks ∙ ap length no_more, matched ∙ ap counts no_more);
      }

  module _ (done : List Batch) (partial : Bytes) (d : Disk) (machine machine' : Except (Machine E))
      (w w' : W) where
    abbrev pub first_run : Except (RunSummary F) × Workspace
    first_run = run O P out_dir needle source machine w (workspace_of O.json d)

    abbrev pub second_run : Except (RunSummary F) × Workspace
    second_run = run O P out_dir needle source machine' w' first_run.1

    -- After a run with a checkpoint has returned, a run with the same settings over the same source
    -- finds every batch committed: whatever machine it starts from, and whether it returns or
    -- raises, it leaves the output as it was, byte for byte, and if it returns, its summary counts
    -- no chunk and no match.
    pub rerun_lem :
        (s : RunSummary F)
        → has_checkpoint P.config.checkpoint ≡ true
        → Reaches filename done partial d
        → first_run.0 ≡ ok s
        → (second_run.1.files ≡ first_run.1.files)
          × ((s' : RunSummary F) → second_run.0 ≡ ok s' → (s'.chunks ≡ 0) × (s'.matched ≡ 0))
    rerun_lem s on h e =
        let l = run-Leaves O P out_dir needle source done partial d machine w on h in
        let done' = done ++ l.more in
        let reached = subst (λ t. Reaches filename done' t l.disk) l.leftover l.reached in
        let all : ids l.more ≡ ids_of (pulls_of O P out_dir needle source (ids done)) =
          sym (append-nil (ids l.more))
          ∙ ap (λ ns. ids l.more ++ ns) (sym ((l.returned s e).2))
          ∙ l.in_order in
        let again =
          run-Leaves O P out_dir needle source done' (left_of done' partial) l.disk machine' w' on
            reached in
        let still : Idle done' partial l.disk second_run =
          subst (λ disk. Idle done' partial l.disk (run O P out_dir needle source machine' w' disk))
            (sym l.left)
            (idle done' partial l.disk reached _ (nothing_left done l.more all) again) in
        (still.files ∙ ap (λ disk. disk.files) (sym l.left), still.counted)
