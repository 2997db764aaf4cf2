-- ===== src/Engine/Spawn/Fleet.antt =====
-- The disk of a campaign with several workers, as SpawnExecutor.execute and _spawn_run_batch
-- (src/bulk_http/engine/spawn.py), `distributed` and `on_control` in Engine.run and Engine._resume
-- (src/bulk_http/engine/core.py) leave it, with crashes at any point. Workers take batches from one
-- queue in the order of submission, so a worker finishes its own batches in that order; between
-- workers any interleaving is possible. A file is found by its worker's name.
pub mod Keeps
pub mod Gathering
pub mod Durable
pub mod Resume
use bulk_http.Prelude.{
  ℕ, ◌<◌, ◌≡◌, false, true, String, List, [], ◌∷◌, ◌++◌, length, contains, nat_keys, string_keys,
  map, All, ◌==◌, if◌then◌else◌,
}
use bulk_http.Dict.{get_or}
use bulk_http.Bytes.{Bytes}
use bulk_http.Checkpoint.Store.{Entry, distributed_entry, committed_entry}
use bulk_http.Checkpoint.Store.Loading.{replay}
use bulk_http.Checkpoint.Resume.{truncate}
use bulk_http.Engine.Campaign.{Batch}

-- The control message of a finished batch, with the bytes that the batch wrote.
pub record Message : Type 0 where
  pub batch : Batch
  pub offset : ℕ

-- The disk, what each worker has finished and reported, what it has written of the batch that it is
-- at, and the ids that are submitted and not collected.
pub record Fleet : Type 0 where
  pub manifest : List Entry
  pub files : String → Bytes
  pub waiting : String → List Message
  pub partial : String → Bytes
  pub queue : List ℕ
  -- the worker that takes a batch, as it turns out in this run
  pub owner : ℕ → String

-- a function changed at one worker
abbrev pub change {ℓ} : {A : Type ℓ} → String → A → (String → A) → String → A
change w a f v = if w == v then a else f v

-- pending.append(pool.apply_async(...)), behind store.record_distributed(chunk_id)
unfoldable pub submit : ℕ → Fleet → Fleet
submit n f = record f {
  manifest = f.manifest ++ distributed_entry n ∷ [];
  queue = f.queue ++ n ∷ [];
}

-- a flush of a worker's sink within a batch
unfoldable pub spill : String → Bytes → Fleet → Fleet
spill w bs f = record f {
  files = change w (f.files w ++ bs) f.files;
  partial = change w (f.partial w ++ bs) f.partial;
}

-- the commit of a worker's sink, and its message
unfoldable pub finish : String → ℕ → ℕ → Fleet → Fleet
finish w n count f = record f {
  waiting =
      change w
        (f.waiting w
          ++ record {
            batch = record { chunk_id = n; output = f.partial w; count = count };
            offset = length (f.files w);
          }
            ∷ [])
        f.waiting;
  partial = change w [] f.partial;
}

-- on_control(pending.popleft().get()), for a message that lies between others of its worker
unfoldable pub gather : String → Message → List Message → List ℕ → Fleet → Fleet
gather w m others queue f = record f {
  manifest =
      f.manifest
      ++ committed_entry (record {
        chunk_id = m.batch.chunk_id;
        worker_file = w;
        offset = m.offset;
        count = m.batch.count;
      })
        ∷ [];
  waiting = change w others f.waiting;
  queue = queue;
}

-- Engine._resume in a new run: the files are cut back, and the old workers are gone
unfoldable pub reboot : (ℕ → String) → Fleet → Fleet
reboot owner f = record {
  manifest = f.manifest;
  files = λ w. truncate (get_or w 0 (replay f.manifest).committed_offsets) (f.files w);
  waiting = λ w. [];
  partial = λ w. [];
  queue = [];
  owner = owner;
}

abbrev pub message_ids : List Message → List ℕ
message_ids = map (λ m. m.batch.chunk_id)

-- The fleets that campaigns reach, with the batches committed so far, each with its worker.
pub data Sails : List (String × Batch) → Fleet → Type 0 where
  launch :
      (owner : ℕ → String)
      → Sails [] (record {
        manifest = [];
        files = λ w. [];
        waiting = λ w. [];
        partial = λ w. [];
        queue = [];
        owner = owner;
      })
  submits :
      {done : List (String × Batch)} {f : Fleet} (n : ℕ)
      → All (λ m. m < n) f.queue
      → contains (map (λ e. e.1.chunk_id) done) n ≡ false
      → Sails done f
      → Sails done (submit n f)
  spills :
      {done : List (String × Batch)} {f : Fleet} (w : String) (bs : Bytes)
      → Sails done f
      → Sails done (spill w bs f)
  finishes :
      {done : List (String × Batch)} {f : Fleet} (w : String) (n count : ℕ)
      → contains f.queue n ≡ true
      → f.owner n ≡ w
      → All (λ m. m < n) (message_ids (f.waiting w))
      → Sails done f
      → Sails done (finish w n count f)
  gathers :
      {done : List (String × Batch)} {f : Fleet} (w : String) (m : Message)
      (before behind : List Message) (queue : List ℕ)
      → f.queue ≡ m.batch.chunk_id ∷ queue
      → f.waiting w ≡ before ++ m ∷ behind
      → Sails done f
      → Sails (done ++ (w, m.batch) ∷ []) (gather w m (before ++ behind) queue f)
  reboots :
      {done : List (String × Batch)} {f : Fleet} (owner : ℕ → String) (e : String × Batch)
      (es : List (String × Batch))
      → done ≡ e ∷ es
      → Sails done f
      → Sails done (reboot owner f)
