-- ===== src/Checkpoint/Resume.antt =====
-- src/bulk_http/checkpoint/resume.py, and `_resume` of src/bulk_http/engine/core.py: the plan of a
-- resume, and the truncation of the files in the output directory.
use bulk_http.Prelude.{
  ℕ, zero, suc, ◌-◌, leb, String, Option, none, some, List, [], ◌∷◌, ◌++◌, length, take, nat_keys,
  string_keys, if◌then◌else◌,
}
use bulk_http.Except.{Except, ok, ◌>>=◌}
use bulk_http.Floats.{Floats}
use bulk_http.Dict.{Dict, get, get_or, put, keys}
use bulk_http.Bytes.{Bytes}
use bulk_http.Value.{Value}
use bulk_http.Checkpoint.Store.{CheckpointState, difference, load}

-- The regular files of the output directory, by name.
abbrev pub Files : Type 0
Files = Dict String Bytes

pub record ResumePlan : Type 0 where
  pub to_replay : List ℕ
  pub truncations : Dict String ℕ

unfoldable pub plan_resume : List ℕ → CheckpointState → ResumePlan
plan_resume all_chunk_ids state = record {
  to_replay = difference all_chunk_ids (keys state.committed);
  truncations = state.committed_offsets;
}

abbrev pub zeros : ℕ → Bytes
zeros zero = []
zeros (suc n) = 0 ∷ zeros n

-- handle.truncate(offset): a file that is too short is filled up with zeros
unfoldable pub truncate : ℕ → Bytes → Bytes
truncate offset content = take offset content ++ zeros (offset - length content)

-- the loop of `truncate_worker_files`, over the names of the files
unfoldable pub truncate_worker_files : List String → ResumePlan → Files → Files
unfolding truncate
truncate_worker_files [] plan files = files
truncate_worker_files (name ∷ names) plan files =
    truncate_worker_files names plan (elim (get name files) [
      | none ↦ files
      | some content ↦ put name (truncate (get_or name 0 plan.truncations) content) files
    ])

-- insertion into a sorted list, for `sorted(state.committed)`
abbrev pub insert_sorted : ℕ → List ℕ → List ℕ
insert_sorted n [] = n ∷ []
insert_sorted n (m ∷ ms) = if leb n m then n ∷ m ∷ ms else m ∷ insert_sorted n ms

abbrev pub sorted : List ℕ → List ℕ
sorted [] = []
sorted (n ∷ ns) = insert_sorted n (sorted ns)

-- Engine._resume after `store.load()`: the ids not to run again, and the files as they are left
unfoldable pub resume_files : CheckpointState → Files → List ℕ × Files
resume_files state files = elim state.committed [
  | [] ↦ ([], files)
  | c ∷ cs ↦
      let plan = plan_resume (sorted (keys state.committed)) state in
      (keys state.committed, truncate_worker_files (keys files) plan files)
]

-- Engine._resume
unfoldable pub resume :
    {F : Floats} → (Bytes → Option (Value F)) → Bytes → Files → Except (List ℕ × Files)
resume loads manifest files = do state ← load loads manifest; ok (resume_files state files)
