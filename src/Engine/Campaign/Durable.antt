-- ===== src/Engine/Campaign/Durable.antt =====
-- What is on the disk of a campaign, and what a resume leaves of it.
use bulk_http.Prelude.{
  ℕ, ◌-◌, ◌≡◌, refl, ap, ap₂, sym, subst, ◌∙◌, false, String, List, [], ◌∷◌, ◌++◌, length, contains,
  nat_keys, string_keys, take-length-append, length-append, append-nil, append_assoc, arith, ◌||◌,
}
use mathlib.Core.List.{map-append}
use bulk_http.Dict.{Dict, keys, get, get_or, put}
use bulk_http.Dict.Laws.{get_or-put, keys-put, eq_refl}
use bulk_http.Bytes.{Bytes}
use bulk_http.Checkpoint.Store.{
  CommittedChunk, Entry, distributed_entry, committed_entry, CheckpointState, empty_state,
}
use bulk_http.Checkpoint.Store.Loading.{replay, replay_from, replay_from-append, apply_entry}
use bulk_http.Checkpoint.Resume.{resume_files, plan_resume, truncate_worker_files, truncate, zeros}
use bulk_http.Engine.Campaign.{
  Disk, Batch, outputs, ids, committed_ids, hand_out, grow, confirm, restart, Reaches, fresh,
  hands_out, writes, commits, resumes,
}

-- No id stands twice.
abbrev pub AreDistinct : List ℕ → Type 0
AreDistinct [] = Unit
AreDistinct (n ∷ ns) = (contains ns n ≡ false) × AreDistinct ns

pub contains-append :
    (ns ms : List ℕ) (n : ℕ) → contains (ns ++ ms) n ≡ (contains ns n || contains ms n)
contains-append [] ms n = refl
contains-append (m ∷ ns) ms n = ground (arith, contains-append ns ms n)

AreDistinct-snoc :
    (ns : List ℕ) (n : ℕ) → AreDistinct ns → contains ns n ≡ false → AreDistinct (ns ++ n ∷ [])
AreDistinct-snoc [] n d h = (refl, tt)
AreDistinct-snoc (m ∷ ns) n d h = (
  ground (arith, contains-append ns (n ∷ []) m, d.0, h),
  AreDistinct-snoc ns n d.1 (ground (arith, h)),
)

abbrev pub offset_of : String → Disk → ℕ
offset_of name d = get_or name 0 (replay d.manifest).committed_offsets

-- What the disk holds after `done` was committed and `partial` was written since.
pub record Holds (name : String) (done : List Batch) (partial : Bytes) (d : Disk) : Type 0 where
  pub content : d.file ≡ outputs done ++ partial
  pub listed : committed_ids d ≡ ids done
  pub offset : offset_of name d ≡ length (outputs done)
  pub distinct : AreDistinct (ids done)

outputs-snoc : (bs : List Batch) (b : Batch) → outputs (bs ++ b ∷ []) ≡ outputs bs ++ b.output
outputs-snoc [] b = append-nil b.output
outputs-snoc (x ∷ bs) b =
    ap (◌++◌ x.output) (outputs-snoc bs b) ∙ sym (append_assoc x.output (outputs bs) b.output)

replay-snoc : (es : List Entry) (e : Entry) → replay (es ++ e ∷ []) ≡ apply_entry (replay es) e
unfolding replay_from
replay-snoc es e = replay_from-append es (e ∷ []) empty_state

hand_out-Holds :
    (name : String) (done : List Batch) (partial : Bytes) (d : Disk) (n : ℕ)
    → Holds name done partial d
    → Holds name done partial (hand_out n d)
unfolding hand_out apply_entry
hand_out-Holds name done partial d n h = record {
  content = h.content;
  listed = ap (λ s. keys s.committed) (replay-snoc d.manifest (distributed_entry n)) ∙ h.listed;
  offset =
      ap (λ s. get_or name 0 s.committed_offsets) (replay-snoc d.manifest (distributed_entry n))
      ∙ h.offset;
  distinct = h.distinct;
}

grow-Holds :
    (name : String) (done : List Batch) (partial bs : Bytes) (d : Disk)
    → Holds name done partial d
    → Holds name done (partial ++ bs) (grow bs d)
unfolding grow
grow-Holds name done partial bs d h = record {
  content = ap (λ t. t ++ bs) h.content ∙ append_assoc (outputs done) partial bs;
  listed = h.listed;
  offset = h.offset;
  distinct = h.distinct;
}

module _ (name : String) (done : List Batch) (partial : Bytes) (d : Disk) (n count : ℕ)
    (new : contains (committed_ids d) n ≡ false) (h : Holds name done partial d) where
  abbrev batch : Batch
  batch = record { chunk_id = n; output = partial; count = count }

  abbrev chunk : CommittedChunk
  chunk = record { chunk_id = n; worker_file = name; offset = length d.file; count = count }

  after :
      replay (confirm name n count d).manifest
      ≡ apply_entry (replay d.manifest) (committed_entry chunk)
  unfolding confirm
  after = replay-snoc d.manifest (committed_entry chunk)

  ids-snoc : ids (done ++ batch ∷ []) ≡ ids done ++ n ∷ []
  ids-snoc = map-append (λ b. b.chunk_id) done (batch ∷ [])

  whole_file : d.file ≡ outputs (done ++ batch ∷ [])
  whole_file = h.content ∙ sym (outputs-snoc done batch)

  confirm-listed : committed_ids (confirm name n count d) ≡ ids (done ++ batch ∷ [])
  unfolding apply_entry
  confirm-listed =
      ap (λ s. keys s.committed) after
      ∙ ground (arith, keys-put n chunk (replay d.manifest).committed, new, h.listed, ids-snoc)

  confirm-offset : offset_of name (confirm name n count d) ≡ length (outputs (done ++ batch ∷ []))
  unfolding apply_entry
  confirm-offset =
      ap (λ s. get_or name 0 s.committed_offsets) after
      ∙ get_or-put name name (length d.file) 0 (replay d.manifest).committed_offsets
      ∙ ground (arith, eq_refl name, ap length whole_file)

  confirm-Holds : Holds name (done ++ batch ∷ []) [] (confirm name n count d)
  unfolding confirm
  confirm-Holds = record {
    content = whole_file ∙ sym (append-nil (outputs (done ++ batch ∷ [])));
    listed = confirm-listed;
    offset = confirm-offset;
    distinct = subst AreDistinct (sym ids-snoc) (
        AreDistinct-snoc (ids done) n h.distinct
          (subst (λ ns. contains ns n ≡ false) h.listed new));
  }

no_gap : (xs ys : Bytes) → zeros (length xs - length (xs ++ ys)) ≡ []
no_gap xs ys =
    let none_left : length xs - length (xs ++ ys) ≡ 0 = omega (arith, length-append xs ys) in
    ap zeros none_left

-- cutting a file back to where a first part ends leaves that part
pub truncate-first : (xs ys : Bytes) → truncate (length xs) (xs ++ ys) ≡ xs
unfolding truncate
truncate-first xs ys = ap₂ ◌++◌ (take-length-append xs ys) (no_gap xs ys) ∙ append-nil xs

resume_none :
    (s : CheckpointState) (name : String) (content : Bytes)
    → keys s.committed ≡ []
    → resume_files s ((name, content) ∷ []) ≡ ([], (name, content) ∷ [])
unfolding resume_files
resume_none s name content e = none_listed s.committed e
  where
    none_listed :
        (committed : Dict ℕ CommittedChunk)
        → keys committed ≡ []
        → resume_files (record s { committed = committed }) ((name, content) ∷ [])
          ≡ ([], (name, content) ∷ [])
    none_listed [] e' = refl
    none_listed (c ∷ cs) e' = absurd (ground arith)

-- a resume of a directory with one file, when something was committed
resume_one :
    (distributed : List ℕ) (committed : Dict ℕ CommittedChunk) (offsets : Dict String ℕ)
    (name : String) (content : Bytes) (n : ℕ) (ns : List ℕ)
    → keys committed ≡ n ∷ ns
    → resume_files
        (record { distributed = distributed; committed = committed; committed_offsets = offsets })
        ((name, content) ∷ [])
      ≡ (keys committed, (name, truncate (get_or name 0 offsets) content) ∷ [])
unfolding resume_files truncate_worker_files plan_resume get put
resume_one distributed [] offsets name content n ns e = absurd (ground arith)
resume_one distributed (c ∷ cs) offsets name content n ns e = ground (arith, eq_refl name)

module _ (name : String) (b : Batch) (bs : List Batch) (partial : Bytes) (d : Disk)
    (h : Holds name (b ∷ bs) partial d) where
  resumes_to :
      resume_files (replay d.manifest) ((name, d.file) ∷ [])
      ≡ (ids (b ∷ bs), (name, outputs (b ∷ bs)) ∷ [])
  resumes_to =
      resume_one (replay d.manifest).distributed (replay d.manifest).committed
        (replay d.manifest).committed_offsets name d.file b.chunk_id (ids bs) h.listed
      ∙ ap₂ (λ ns t. (ns, (name, t) ∷ [])) h.listed
          (ap₂ truncate h.offset h.content ∙ truncate-first (outputs (b ∷ bs)) partial)

  restart-file : (restart name d).file ≡ outputs (b ∷ bs)
  unfolding restart get
  restart-file = ap (λ r. get_or name [] r.1) resumes_to ∙ ground (arith, eq_refl name)

  restart-Holds : Holds name (b ∷ bs) [] (restart name d)
  unfolding restart
  restart-Holds = record {
    content = restart-file ∙ sym (append-nil (outputs (b ∷ bs)));
    listed = h.listed;
    offset = h.offset;
    distinct = h.distinct;
  }

restart-any :
    (name : String) (done : List Batch) (partial : Bytes) (d : Disk) (b : Batch) (bs : List Batch)
    → done ≡ b ∷ bs
    → Holds name done partial d
    → Holds name done [] (restart name d)
restart-any name done partial d b bs e h =
    subst (λ bs'. Holds name bs' [] (restart name d)) (sym e)
      (restart-Holds name b bs partial d (subst (λ bs'. Holds name bs' partial d) e h))

-- On every disk that a campaign reaches, the file is what was written up to each commit, in order,
-- and what was written since; the manifest lists the ids of the commits, which are distinct, and
-- its offset is the length that the file had at the last of them.
pub Reaches-Holds :
    {name : String} {done : List Batch} {partial : Bytes} {d : Disk}
    → Reaches name done partial d
    → Holds name done partial d
unfolding get replay_from
Reaches-Holds fresh = record { content = refl; listed = refl; offset = refl; distinct = tt }
Reaches-Holds (hands_out n r) = hand_out-Holds _ _ _ _ n (Reaches-Holds r)
Reaches-Holds (writes bs r) = grow-Holds _ _ _ bs _ (Reaches-Holds r)
Reaches-Holds (commits n count new r) = confirm-Holds _ _ _ _ n count new (Reaches-Holds r)
Reaches-Holds {name = name} (resumes {done = done} {partial = partial} {d = d} b bs e r) =
    restart-any name done partial d b bs e (Reaches-Holds r)

-- A resume of a campaign in which something was committed returns the ids of the committed batches
-- and cuts the worker's file back to what it was at the last commit.
pub resume_exact :
    (name : String) (b : Batch) (bs : List Batch) (partial : Bytes) (d : Disk)
    → Reaches name (b ∷ bs) partial d
    → resume_files (replay d.manifest) ((name, d.file) ∷ [])
      ≡ (ids (b ∷ bs), (name, outputs (b ∷ bs)) ∷ [])
resume_exact name b bs partial d r = resumes_to name b bs partial d (Reaches-Holds r)

-- When nothing was committed yet, a resume leaves the files as they are, so that what a crashed
-- run had written stays in front of what the next run writes.
pub resume_keeps_partial :
    (name : String) (partial : Bytes) (d : Disk)
    → Reaches name [] partial d
    → resume_files (replay d.manifest) ((name, d.file) ∷ []) ≡ ([], (name, partial) ∷ [])
unfolding resume_files
resume_keeps_partial name partial d r =
    let h = Reaches-Holds r in
    resume_none (replay d.manifest) name d.file h.listed ∙ ap (λ t. ([], (name, t) ∷ [])) h.content
