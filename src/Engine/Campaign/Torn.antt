-- ===== src/Engine/Campaign/Torn.antt =====
-- Engine._resume of src/bulk_http/engine/core.py on the bytes of a manifest whose last line a crash
-- may have torn.
use bulk_http.Prelude.{◌≡◌, ◌≢◌, ap, ◌∙◌, String, List, [], ◌∷◌, ◌++◌}
use bulk_http.Except.{ok, ◌>>=◌}
use bulk_http.Floats.{Floats}
use bulk_http.Bytes.{Bytes}
use bulk_http.Checkpoint.Store.{Entry}
use bulk_http.Checkpoint.Store.Codec.{Json}
use bulk_http.Checkpoint.Store.Loading.{replay, written, text_of, load-written}
use bulk_http.Checkpoint.Resume.{Files, resume, resume_files}
use bulk_http.Engine.Campaign.{Disk, Batch, Reaches, outputs, ids}
use bulk_http.Engine.Campaign.Durable.{resume_exact}

module _ {F : Floats} (J : Json F) where
  open J use {loads}

  -- a resume of what was appended whole, and then the beginning of one more entry
  pub resume-written :
      (es : List Entry) (e : Entry) (p q : Bytes) (files : Files)
      → p ++ q ≡ text_of J e
      → q ≢ []
      → resume loads (written J es ++ p) files ≡ ok (resume_files (replay es) files)
  unfolding resume
  resume-written es e p q files h ne =
      ap (λ state. state >>= λ s. ok (resume_files s files)) (load-written J es e p q h ne)

  -- When a batch was committed, a resume after a crash at any step, also in the middle of an append
  -- to the manifest, returns the ids of the committed batches and cuts the worker's file back to
  -- what it was at the last commit: the outputs of the committed batches in order, where the output
  -- of a batch is all that was written since the commit before it. The entries of the manifest in
  -- front of the torn one were appended whole.
  pub resume_torn :
      (name : String) (b : Batch) (bs : List Batch) (partial : Bytes) (d : Disk) (e : Entry)
      (p q : Bytes)
      → Reaches name (b ∷ bs) partial d
      → p ++ q ≡ text_of J e
      → q ≢ []
      → resume loads (written J d.manifest ++ p) ((name, d.file) ∷ [])
        ≡ ok (ids (b ∷ bs), (name, outputs (b ∷ bs)) ∷ [])
  resume_torn name b bs partial d e p q r h ne =
      resume-written d.manifest e p q ((name, d.file) ∷ []) h ne
      ∙ ap ok (resume_exact name b bs partial d r)
