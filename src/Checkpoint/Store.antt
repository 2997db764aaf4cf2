-- ===== src/Checkpoint/Store.antt =====
-- src/bulk_http/checkpoint/store.py: the append-only manifest. A store is the bytes of its file:
-- every append is flushed and synced before it returns. orjson is the parameter `Json`.
pub mod Codec
pub mod Loading
use bulk_http.Prelude.{
  ℕ, Bool, true, false, String, Option, none, some, List, [], ◌∷◌, ◌++◌, not, contains, nat_keys,
  string_keys, ◌==◌, if◌then◌else◌,
}
use bulk_http.Prelude.Int.{pos}
use bulk_http.Except.{Except, ok, raise, key_error, type_error, attribute_error, ◌>>=◌}
use bulk_http.Floats.{Floats}
use bulk_http.Dict.{Dict, put, keys}
use bulk_http.Bytes.{Bytes, newline, strip, lines_of}
use bulk_http.Value.{Value, null, bool, int, float, str, bytes, list, dict, Fields, end, field}

pub record CommittedChunk : Type 0 where
  pub chunk_id : ℕ
  pub worker_file : String
  pub offset : ℕ
  pub count : ℕ

pub record CheckpointState : Type 0 where
  -- a set, in the order of insertion
  pub distributed : List ℕ
  pub committed : Dict ℕ CommittedChunk
  pub committed_offsets : Dict String ℕ

-- CheckpointState()
abbrev pub empty_state : CheckpointState
empty_state = record { distributed = []; committed = []; committed_offsets = [] }

-- s.add(n)
abbrev pub add_to_set : ℕ → List ℕ → List ℕ
add_to_set n s = if contains s n then s else s ++ n ∷ []

-- a - b
abbrev pub difference : List ℕ → List ℕ → List ℕ
difference [] b = []
difference (n ∷ a) b = if contains b n then difference a b else n ∷ difference a b

-- CheckpointState.pending
unfoldable pub pending : CheckpointState → List ℕ
pending s = difference s.distributed (keys s.committed)

-- What an append records.
pub data Entry : Type 0 where
  distributed_entry : ℕ → Entry
  committed_entry : CommittedChunk → Entry

module _ {F : Floats} where
  -- the dicts of `record_distributed` and `commit_chunk`
  unfoldable pub encode : Entry → Fields F
  encode (distributed_entry n) =
      field "type" (str "distributed") (field "chunk_id" (int (pos n)) end)
  encode (committed_entry c) = field "type" (str "committed") (
      field "chunk_id" (int (pos c.chunk_id)) (
        field "worker_file" (str c.worker_file)
          (field "offset" (int (pos c.offset)) (field "count" (int (pos c.count)) end))))

  -- entry.get(key)
  unfoldable pub get_field : String → Fields F → Option (Value F)
  get_field key end = none
  get_field key (field k v fs) = if k == key then some v else get_field key fs

  -- entry[key]
  unfoldable pub need_field : String → Fields F → Except (Value F)
  unfolding get_field
  need_field key fs = elim (get_field key fs) [ none ↦ raise key_error | some v ↦ ok v ]

  -- The store writes numbers and strings here; for another value the model stops with an error.
  abbrev pub as_nat : Value F → Except ℕ
  as_nat (int (pos n)) = ok n
  as_nat v = raise type_error

  abbrev pub as_str : Value F → Except String
  as_str (str s) = ok s
  as_str v = raise type_error

  -- entry.get("type") == name
  abbrev pub is_named : Option (Value F) → String → Bool
  is_named (some (str s)) name = s == name
  is_named v name = false

  unfoldable pub load_distributed : Fields F → CheckpointState → Except CheckpointState
  unfolding need_field
  load_distributed fs state = do
    v ← need_field "chunk_id" fs
    n ← as_nat v
    ok (record state { distributed = add_to_set n state.distributed })

  unfoldable pub load_committed : Fields F → CheckpointState → Except CheckpointState
  unfolding need_field
  load_committed fs state = do
    i ← need_field "chunk_id" fs
    chunk_id ← as_nat i
    w ← need_field "worker_file" fs
    worker_file ← as_str w
    o ← need_field "offset" fs
    offset ← as_nat o
    c ← need_field "count" fs
    count ← as_nat c
    let chunk : CommittedChunk = record {
      chunk_id = chunk_id;
      worker_file = worker_file;
      offset = offset;
      count = count;
    }
    ok (record {
      distributed = add_to_set chunk_id state.distributed;
      committed = put chunk_id chunk state.committed;
      committed_offsets = put worker_file offset state.committed_offsets;
    })

  -- the branches on a decoded line
  unfoldable pub load_value : Value F → CheckpointState → Except CheckpointState
  unfolding load_distributed load_committed get_field
  load_value (dict fs) state =
      let kind = get_field "type" fs in
      if is_named kind "distributed"
      then load_distributed fs state
      else if is_named kind "committed"
      then load_committed fs state
      else ok state
  load_value _ state = raise attribute_error

module _ {F : Floats} (loads : Bytes → Option (Value F)) where
  -- the body of the loop of `load`
  unfoldable pub load_line : Bytes → CheckpointState → Except CheckpointState
  load_line raw state = elim (strip raw) [
    | [] ↦ ok state
    | c ∷ line ↦ elim (loads (c ∷ line)) [ none ↦ ok state | some v ↦ load_value v state ]
  ]

  unfoldable pub load_lines : List Bytes → CheckpointState → Except CheckpointState
  load_lines [] state = ok state
  load_lines (raw ∷ rest) state = do state' ← load_line raw state; load_lines rest state'

  -- CheckpointStore.load
  unfoldable pub load : Bytes → Except CheckpointState
  load manifest = load_lines (lines_of manifest) empty_state

module _ {F : Floats} (dumps : Value F → Bytes) where
  -- CheckpointStore._append
  unfoldable pub append_entry : Bytes → Entry → Bytes
  append_entry manifest e = manifest ++ (dumps (dict (encode e)) ++ newline ∷ [])

  -- CheckpointStore.record_distributed
  unfoldable pub record_distributed : Bytes → ℕ → Bytes
  unfolding append_entry
  record_distributed manifest n = append_entry manifest (distributed_entry n)

  -- CheckpointStore.commit_chunk
  unfoldable pub commit_chunk : Bytes → ℕ → String → ℕ → ℕ → Bytes
  unfolding append_entry
  commit_chunk manifest chunk_id worker_file offset count = append_entry manifest (
      committed_entry
        (record { chunk_id = chunk_id; worker_file = worker_file; offset = offset; count = count }))
