-- ===== src/Examples/Campaign.antt =====
-- A campaign that commits a batch, writes a part of the next one and crashes.
use bulk_http.Prelude.{◌++◌, [], ◌∷◌, ◌≡◌, refl, nat_keys, string_keys}
use bulk_http.Bytes.{Bytes}
use bulk_http.Checkpoint.Store.Loading.{replay, replay_from, written}
use bulk_http.Checkpoint.Store.{encode, distributed_entry}
use bulk_http.Except.{ok}
use bulk_http.Checkpoint.Resume.{resume, resume_files}
use bulk_http.Engine.Campaign.{
  Disk, Batch, Reaches, fresh, hands_out, writes, commits, hand_out, grow, confirm,
}
use bulk_http.Engine.Campaign.Torn.{resume_torn}
use bulk_http.Engine.Campaign.Durable.{resume_keeps_partial}
use bulk_http.Examples.Codec.{codec, dumps}

abbrev new_disk : Disk
new_disk = record { manifest = []; file = [] }

abbrev first_output : Bytes
first_output = 123 ∷ 125 ∷ 10 ∷ []

abbrev first_batch : Batch
first_batch = record { chunk_id = 0; output = first_output; count = 1 }

-- a batch was handed out and its result written, and then came the crash
abbrev early_disk : Disk
unfolding hand_out grow
early_disk = grow first_output (hand_out 0 new_disk)

abbrev early : Reaches "worker-1.ndjson" [] first_output early_disk
unfolding hand_out grow
early = writes first_output (hands_out 0 fresh)

-- the batch was committed, and of the next one half a line was written
abbrev late_disk : Disk
unfolding confirm grow early_disk
late_disk = grow (123 ∷ []) (confirm "worker-1.ndjson" 0 1 early_disk)

abbrev late : Reaches "worker-1.ndjson" (first_batch ∷ []) (123 ∷ []) late_disk
unfolding confirm grow early_disk late_disk early replay_from
late = writes (123 ∷ []) (commits 0 1 refl early)

-- the crash came in the middle of the append for the next batch
resume_torn_example :
    resume
      (codec.loads)
      (written codec late_disk.manifest ++ 123 ∷ 127 ∷ [])
      (("worker-1.ndjson", late_disk.file) ∷ [])
    ≡ ok (0 ∷ [], ("worker-1.ndjson", first_output) ∷ [])
unfolding late encode dumps
resume_torn_example =
    resume_torn codec "worker-1.ndjson" first_batch [] (123 ∷ []) late_disk (distributed_entry 1)
      (123 ∷ 127 ∷ []) (125 ∷ []) late refl (λ e. absurd cc)

resume_keeps_partial_example :
    resume_files (replay early_disk.manifest) (("worker-1.ndjson", early_disk.file) ∷ [])
    ≡ ([], ("worker-1.ndjson", first_output) ∷ [])
resume_keeps_partial_example = resume_keeps_partial "worker-1.ndjson" first_output early_disk early
