-- ===== src/Engine/Run/Resumed.antt =====
-- The disk that a run of src/bulk_http/engine/core.py finds, with a checkpoint, and its resume.
use bulk_http.Prelude.{
  ◌≡◌, refl, ap, ap₂, sym, ◌∙◌, List, [], ◌∷◌, nat_keys, string_keys, append-nil,
}
use bulk_http.Except.{ok, ◌>>=◌}
use bulk_http.Floats.{Floats}
use bulk_http.Bytes.{Bytes}
use bulk_http.Checkpoint.Store.{Entry, load}
use bulk_http.Checkpoint.Store.Codec.{Json}
use bulk_http.Checkpoint.Store.Loading.{written, replay, load_lines-all}
use bulk_http.Checkpoint.Resume.{Files, resume, resume_files}
use bulk_http.Engine.Campaign.{Disk, Batch, outputs, committed_ids, restart, Reaches, resumes}
use bulk_http.Engine.Campaign.Durable.{Reaches-Holds, resume_exact, resume_keeps_partial}
use bulk_http.Engine.Executor.{filename}
use bulk_http.Engine.Executor.Crashes.{left_of}
use bulk_http.Engine.Run.{Workspace}

module _ {F : Floats} (J : Json F) where
  -- the output directory with the worker's file in it, and the checkpoint
  abbrev pub workspace_of : Disk → Workspace
  workspace_of d = record { manifest = written J d.manifest; files = (filename, d.file) ∷ [] }

  -- The disk after a resume, and what the resume returns.
  pub record Resumed (done : List Batch) (partial : Bytes) (d : Disk) : Type 0 where
    pub disk : Disk
    pub kept : Bytes
    pub cut : kept ≡ left_of done partial
    pub reached : Reaches filename done kept disk
    pub same : disk.manifest ≡ d.manifest
    pub returns :
        resume J.loads (written J d.manifest) ((filename, d.file) ∷ [])
        ≡ ok (committed_ids disk, (filename, disk.file) ∷ [])

  resume-written :
      (es : List Entry) (files : Files)
      → resume J.loads (written J es) files ≡ ok (resume_files (replay es) files)
  unfolding resume load
  resume-written es files =
      ap (λ r. r >>= λ state. ok (resume_files state files)) (load_lines-all J es _)

  pub resume-Resumed :
      (done : List Batch) (partial : Bytes) (d : Disk)
      → Reaches filename done partial d
      → Resumed done partial d
  unfolding restart
  resume-Resumed [] partial d h = record {
    disk = d;
    kept = partial;
    cut = refl;
    reached = h;
    same = refl;
    returns =
        resume-written d.manifest ((filename, d.file) ∷ [])
        ∙ ap ok (
            resume_keeps_partial filename partial d h
            ∙ ap₂ (λ ns t. (ns, (filename, t) ∷ [])) (sym (Reaches-Holds h).listed)
                (sym (Reaches-Holds h).content));
  }
  resume-Resumed (b ∷ bs) partial d h =
      let h₁ = resumes b bs refl h in
      record {
        disk = restart filename d;
        kept = [];
        cut = refl;
        reached = h₁;
        same = refl;
        returns =
            resume-written d.manifest ((filename, d.file) ∷ [])
            ∙ ap ok (
                resume_exact filename b bs partial d h
                ∙ ap₂ (λ ns t. (ns, (filename, t) ∷ [])) (sym (Reaches-Holds h₁).listed)
                    (sym ((Reaches-Holds h₁).content ∙ append-nil (outputs (b ∷ bs)))));
      }
