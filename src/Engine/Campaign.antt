-- ===== src/Engine/Campaign.antt =====
-- The disk of a campaign with one worker file, as the steps of InProcessExecutor.execute
-- (src/bulk_http/engine/executor.py), of `distributed` and `on_control` in Engine.run and of
-- Engine._resume (src/bulk_http/engine/core.py) leave it, with crashes between any two steps. An
-- append to the manifest is one step; Torn has the crash in the middle of the last one.
pub mod Durable
pub mod Torn
use bulk_http.Prelude.{
  ℕ, ◌≡◌, false, String, List, [], ◌∷◌, ◌++◌, length, contains, nat_keys, string_keys, map,
}
use bulk_http.Dict.{keys, get_or}
use bulk_http.Bytes.{Bytes}
use bulk_http.Checkpoint.Store.{
  CommittedChunk, Entry, distributed_entry, committed_entry, CheckpointState,
}
use bulk_http.Checkpoint.Store.Loading.{replay}
use bulk_http.Checkpoint.Resume.{Files, resume_files}

-- The entries of the manifest, and the bytes of the worker's file.
pub record Disk : Type 0 where
  pub manifest : List Entry
  pub file : Bytes

-- A batch that was committed: its id, the bytes that were written since the commit before it, or
-- since the file was opened first, and the number of its results. A crash before the first commit
-- leaves bytes that no resume cuts off, and they count as output of the batch that commits first.
pub record Batch : Type 0 where
  pub chunk_id : ℕ
  pub output : Bytes
  pub count : ℕ

abbrev pub outputs : List Batch → Bytes
outputs [] = []
outputs (b ∷ bs) = b.output ++ outputs bs

abbrev pub ids : List Batch → List ℕ
ids = map (λ b. b.chunk_id)

-- the ids that a run skips
abbrev pub committed_ids : Disk → List ℕ
committed_ids d = keys (replay d.manifest).committed

-- store.record_distributed(chunk_id)
unfoldable pub hand_out : ℕ → Disk → Disk
hand_out n d = record d { manifest = d.manifest ++ distributed_entry n ∷ [] }

-- a flush of the sink: the worker's file grows
unfoldable pub grow : Bytes → Disk → Disk
grow bs d = record d { file = d.file ++ bs }

-- the sink's commit returned the file's length, and on_control calls store.commit_chunk
unfoldable pub confirm : String → ℕ → ℕ → Disk → Disk
confirm name n count d = record d {
  manifest =
      d.manifest
      ++ committed_entry
          (record { chunk_id = n; worker_file = name; offset = length d.file; count = count })
        ∷ [];
}

-- Engine._resume: what it does to the worker's file
unfoldable pub restart : String → Disk → Disk
restart name d = record d {
  file = get_or name [] (resume_files (replay d.manifest) ((name, d.file) ∷ [])).1;
}

-- The disks that campaigns reach, with the batches committed so far, in order, and the bytes that
-- were written since the last commit. A crash is a step that stops: any of these disks may be the
-- one that the next run finds.
pub data Reaches (name : String) : List Batch → Bytes → Disk → Type 0 where
  fresh : Reaches name [] [] (record { manifest = []; file = [] })
  hands_out :
      {done : List Batch} {partial : Bytes} {d : Disk} (n : ℕ)
      → Reaches name done partial d
      → Reaches name done partial (hand_out n d)
  writes :
      {done : List Batch} {partial : Bytes} {d : Disk} (bs : Bytes)
      → Reaches name done partial d
      → Reaches name done (partial ++ bs) (grow bs d)
  commits :
      {done : List Batch} {partial : Bytes} {d : Disk} (n count : ℕ)
      → contains (committed_ids d) n ≡ false
      → Reaches name done partial d
      → Reaches name
          (done ++ record { chunk_id = n; output = partial; count = count } ∷ [])
          []
          (confirm name n count d)
  resumes :
      {done : List Batch} {partial : Bytes} {d : Disk} (b : Batch) (bs : List Batch)
      → done ≡ b ∷ bs
      → Reaches name done partial d
      → Reaches name done [] (restart name d)
