-- ===== src/Examples/Manifest.antt =====
-- A manifest of two entries, and a crash in the middle of a third one.
use bulk_http.Prelude.{◌≡◌, ◌≢◌, refl, List, [], ◌∷◌, ◌++◌}
use bulk_http.Except.{ok}
use bulk_http.Bytes.{Bytes}
use bulk_http.Checkpoint.Store.{Entry, distributed_entry, committed_entry, encode, load}
use bulk_http.Checkpoint.Store.Loading.{replay, written, load-written, load_loses_first}
use bulk_http.Examples.Codec.{codec, dumps}

abbrev two_entries : List Entry
two_entries =
    distributed_entry 0
    ∷ committed_entry
        (record { chunk_id = 0; worker_file = "worker-1.ndjson"; offset = 3; count = 1 })
    ∷ []

abbrev torn : Bytes
torn = 123 ∷ 127 ∷ []

something : Path Bytes (125 ∷ []) [] → ⊥
something h = cc

torn_something : torn ≢ []
torn_something h = cc

load-written_example :
    load (codec.loads) (written codec two_entries ++ torn) ≡ ok (replay two_entries)
unfolding encode dumps
load-written_example =
    load-written codec two_entries (distributed_entry 1) torn (125 ∷ []) refl something

load_loses_first_example :
    load
      (codec.loads)
      (written codec two_entries ++ (torn ++ written codec (distributed_entry 1 ∷ [])))
    ≡ ok (replay (two_entries ++ []))
unfolding encode dumps
load_loses_first_example =
    load_loses_first codec two_entries [] (distributed_entry 1) (distributed_entry 1) torn
      (125 ∷ []) refl torn_something
