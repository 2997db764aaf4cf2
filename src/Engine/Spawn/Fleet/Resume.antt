-- ===== src/Engine/Spawn/Fleet/Resume.antt =====
-- Engine._resume of src/bulk_http/engine/core.py on the directory of several workers.
use bulk_http.Prelude.{
  ℕ, ◌≡◌, ◌≢◌, refl, ap, ap₂, sym, ◌∙◌, subst, arith, String, true, false, none, some, List, [],
  ◌∷◌, ◌++◌, contains, nat_keys, string_keys, ◌==◌, map_option, inl, inr, Bool-cases, Option-cases,
}
use bulk_http.Dict.{Dict, keys, get, get_or, put}
use bulk_http.Dict.Laws.{get-put, eq_refl}
use bulk_http.Bytes.{Bytes}
use bulk_http.Checkpoint.Store.{CommittedChunk}
use bulk_http.Checkpoint.Store.Loading.{replay, written, text_of}
use bulk_http.Checkpoint.Resume.{
  Files, ResumePlan, plan_resume, resume_files, truncate, truncate_worker_files, resume,
}
use bulk_http.Except.{ok}
use bulk_http.Floats.{Floats}
use bulk_http.Checkpoint.Store.{Entry}
use bulk_http.Checkpoint.Store.Codec.{Json}
use bulk_http.Engine.Campaign.Torn.{resume-written}
use bulk_http.Engine.Campaign.{Batch}
use bulk_http.Engine.Campaign.Durable.{truncate-first}
use bulk_http.Engine.Spawn.Fleet.{Fleet, Sails}
use bulk_http.Engine.Spawn.Fleet.Keeps.{outputs_of, done_ids, reported}
use bulk_http.Engine.Spawn.Fleet.Durable.{Sails-Holds}

-- no name stands twice
abbrev pub AreDistinctNames : List String → Type 0
AreDistinctNames [] = Unit
AreDistinctNames (n ∷ ns) = (contains ns n ≡ false) × AreDistinctNames ns

module _ (plan : ResumePlan) (w : String) where
  -- what the truncation makes of the file of this name
  abbrev cut : Bytes → Bytes
  cut content = truncate (get_or w 0 plan.truncations) content

  truncate_one : String → Files → Files
  truncate_one name files = elim (get name files) [
    | none ↦ files
    | some content ↦ put name (truncate (get_or name 0 plan.truncations) content) files
  ]

  truncate_one-here : (files : Files) → get w (truncate_one w files) ≡ map_option cut (get w files)
  unfolding truncate_one
  truncate_one-here files = elim (Option-cases (get w files)) [
    | inl e ↦ ground (arith, e)
    | inr (c, e) ↦ ground (arith, e, get-put w w (cut c) files, eq_refl w)
  ]

  truncate_one-there :
      (name : String) (files : Files)
      → (name == w) ≡ false
      → get w (truncate_one name files) ≡ get w files
  unfolding truncate_one
  truncate_one-there name files other = elim (Option-cases (get name files)) [
    | inl e ↦ ground (arith, e)
    | inr (c, e) ↦
        ground (arith, e, other, get-put name w (truncate (get_or name 0 plan.truncations) c) files)
  ]

  others_stay :
      (names : List String) (files : Files)
      → contains names w ≡ false
      → get w (truncate_worker_files names plan files) ≡ get w files
  unfolding truncate_worker_files truncate_one
  others_stay [] files h = refl
  others_stay (name ∷ names) files h =
      others_stay names (truncate_one name files) (ground (arith, h))
      ∙ truncate_one-there name files (ground (arith, h))

  truncate_worker_files-get :
      (names : List String) (files : Files)
      → AreDistinctNames names
      → contains names w ≡ true
      → get w (truncate_worker_files names plan files) ≡ map_option cut (get w files)
  unfolding truncate_worker_files truncate_one
  truncate_worker_files-get [] files d h = absurd (ground (arith, h))
  truncate_worker_files-get (name ∷ names) files d h = elim (Bool-cases (name == w)) [
    | inl here ↦
        others_stay names (truncate_one name files)
          (subst (λ v. contains names v ≡ false) ((string_keys.same_iff name w).0 here) d.0)
        ∙ subst (λ v. get w (truncate_one v files) ≡ map_option cut (get w files))
            (sym ((string_keys.same_iff name w).0 here)) (truncate_one-here files)
    | inr other ↦
        truncate_worker_files-get names (truncate_one name files) d.1 (ground (arith, h, other))
        ∙ ap (map_option cut) (truncate_one-there name files other)
  ]

-- a resume of a directory, when something was committed
resume_some :
    (distributed : List ℕ) (committed : Dict ℕ CommittedChunk) (offsets : Dict String ℕ)
    (files : Files) (n : ℕ) (ns : List ℕ)
    → keys committed ≡ n ∷ ns
    → (plan : ResumePlan) × (plan.truncations ≡ offsets)
      × (resume_files
            (record {
              distributed = distributed;
              committed = committed;
              committed_offsets = offsets;
            })
            files
          ≡ (keys committed, truncate_worker_files (keys files) plan files))
unfolding resume_files plan_resume
resume_some distributed [] offsets files n ns e = absurd (ground (arith, e))
resume_some distributed (c ∷ cs) offsets files n ns e = (_, refl, refl)

-- the same on the entries of the manifest
pub fleet_resume_exact :
    (e : String × Batch) (es : List (String × Batch)) (f : Fleet) (files : Files) (w : String)
    → AreDistinctNames (keys files)
    → contains (keys files) w ≡ true
    → get w files ≡ some (f.files w)
    → Sails (e ∷ es) f
    → ((resume_files (replay f.manifest) files).0 ≡ done_ids (e ∷ es))
      × (get w (resume_files (replay f.manifest) files).1 ≡ some (outputs_of w (e ∷ es)))
fleet_resume_exact e es f files w distinct inside found s =
    let h = Sails-Holds s in
    let k = h.workers w in
    let (plan, offsets, same) =
      resume_some (replay f.manifest).distributed (replay f.manifest).committed
        (replay f.manifest).committed_offsets files _ _ h.listed in
    (
      ap (λ r. r.0) same ∙ h.listed,
      ap (λ r. get w r.1) same
          ∙ truncate_worker_files-get plan w (keys files) files distinct inside
          ∙ ap (map_option (λ c. truncate (get_or w 0 plan.truncations) c)) found
          ∙ ap some (
              ap (λ o. truncate (get_or w 0 o) (f.files w)) offsets
              ∙ ap₂ truncate k.offset k.content
              ∙ truncate-first (outputs_of w (e ∷ es)) (reported (f.waiting w) ++ f.partial w)),
    )

-- With several workers, when the coordinator has collected a batch, a resume after a crash at any
-- step, also in the middle of an append to the manifest, returns the ids of the collected batches
-- and cuts the file of each worker that it finds back to the outputs of this worker's collected
-- batches, in order: whatever else the worker had written, or finished and not yet reported to the
-- coordinator, is cut off. The entries of the manifest in front of the torn one were appended
-- whole, and no earlier run ended before a batch was collected.
pub fleet_resume_torn :
    {F : Floats} (J : Json F) (e : String × Batch) (es : List (String × Batch)) (f : Fleet)
    (files : Files) (w : String) (entry : Entry) (p q : Bytes)
    → AreDistinctNames (keys files)
    → contains (keys files) w ≡ true
    → get w files ≡ some (f.files w)
    → Sails (e ∷ es) f
    → p ++ q ≡ text_of J entry
    → q ≢ []
    → (left : Files) × (resume (J.loads) (written J f.manifest ++ p) files
        ≡ ok (done_ids (e ∷ es), left))
      × (get w left ≡ some (outputs_of w (e ∷ es)))
fleet_resume_torn J e es f files w entry p q distinct inside found s h ne =
    let (listed, content) = fleet_resume_exact e es f files w distinct inside found s in
    let left = (resume_files (replay f.manifest) files).1 in
    (
      left,
      resume-written J f.manifest entry p q files h ne ∙ ap (λ ns. ok (ns, left)) listed,
      content,
    )
