-- ===== src/Examples/Workers.antt =====
-- Two workers: one finishes a batch before the other, whose batch the coordinator collects first; a
-- crash comes before the second message is collected.
use bulk_http.Prelude.{
  ℕ, ◌≡◌, refl, arith, some, String, [], ◌∷◌, ◌++◌, nat_keys, string_keys, if◌then◌else◌, nat_beq,
}
use bulk_http.Bytes.{Bytes}
use bulk_http.Dict.{get}
use bulk_http.Except.{Except, ok}
use bulk_http.Value.{Value}
use bulk_http.Floats.Millis.{millis}
use bulk_http.Checkpoint.Store.Loading.{written}
use bulk_http.Checkpoint.Store.{encode, distributed_entry}
use bulk_http.Checkpoint.Resume.{Files, resume}
use bulk_http.Prelude.Int.{pos}
use bulk_http.Concurrency.Pool.{pool_map_batches}
use bulk_http.Concurrency.Pool.Answers.{Answers, pool_map_batches-Answers}
use bulk_http.Engine.Spawn.{Worker, spawn_init, spawn_run_batch}
use bulk_http.Engine.Spawn.Batch.{Leaves, spawn_run_batch-Leaves}
use bulk_http.Engine.Spawn.Fleet.{
  Fleet, Message, Sails, launch, submits, spills, finishes, gathers, submit, spill, finish, gather,
}
use bulk_http.Engine.Spawn.Fleet.Resume.{fleet_resume_torn}
use bulk_http.Examples.Codec.{codec, dumps}
use bulk_http.Examples.Runs.{E, processor, tasks, machine}

-- the first worker takes the first batch, the second one the other
abbrev owner : ℕ → String
owner n = if nat_beq n 0 then "worker-1.ndjson" else "worker-2.ndjson"

abbrev start : Fleet
start = record {
  manifest = [];
  files = λ w. [];
  waiting = λ w. [];
  partial = λ w. [];
  queue = [];
  owner = owner;
}

abbrev one_line : Bytes
one_line = 123 ∷ 125 ∷ 10 ∷ []

abbrev handed_out : Fleet
unfolding submit
handed_out = submit 1 (submit 0 start)

-- both have written, and reported the other way round
abbrev reported : Fleet
unfolding handed_out spill finish
reported = finish "worker-1.ndjson" 0 1 (
    finish "worker-2.ndjson" 1 1
      (spill "worker-2.ndjson" one_line (spill "worker-1.ndjson" one_line handed_out)))

abbrev reported-Sails : Sails [] reported
unfolding handed_out spill finish reported submit
reported-Sails = finishes "worker-1.ndjson" 0 1 refl refl tt (
    finishes "worker-2.ndjson" 1 1 refl refl tt (
      spills "worker-2.ndjson" one_line (
        spills "worker-1.ndjson" one_line
          (submits 1 (omega arith, tt) refl (submits 0 tt refl (launch owner))))))

abbrev message : Message
message = record { batch = record { chunk_id = 0; output = one_line; count = 1 }; offset = 3 }

-- the coordinator has collected the first batch
abbrev crashed : Fleet
unfolding gather reported finish spill handed_out submit
crashed = gather "worker-1.ndjson" message [] (1 ∷ []) reported

abbrev crashed-Sails : Sails (("worker-1.ndjson", message.batch) ∷ []) crashed
unfolding gather reported finish spill handed_out submit crashed reported-Sails
crashed-Sails = gathers "worker-1.ndjson" message [] [] (1 ∷ []) refl refl reported-Sails

abbrev directory : Files
directory = ("worker-1.ndjson", one_line) ∷ ("worker-2.ndjson", one_line) ∷ []

fleet_resume_torn_example :
    (left : Files) × (resume (codec.loads) (written codec crashed.manifest ++ 123 ∷ []) directory
      ≡ ok (0 ∷ [], left))
    × (get "worker-2.ndjson" left ≡ some [])
unfolding crashed gather reported finish spill handed_out submit get encode dumps
fleet_resume_torn_example =
    fleet_resume_torn codec ("worker-1.ndjson", message.batch) [] crashed directory
      "worker-2.ndjson" (distributed_entry 1) (123 ∷ []) (127 ∷ 125 ∷ []) (refl, (refl, tt)) refl
      refl crashed-Sails refl (λ e. absurd cc)

-- everything is serialized as the codec does
abbrev dumps_ok : Value millis → Except Bytes
dumps_ok v = ok (codec.dumps v)

-- a worker that starts on an empty file
abbrev worker : Worker E
unfolding spawn_init machine
worker = spawn_init [] machine.world

spawn_run_batch-Leaves_example :
    Leaves dumps_ok processor [] "worker-1.ndjson" 0 tasks []
      (spawn_run_batch processor [] dumps_ok "worker-1.ndjson" (0, tasks) worker)
unfolding worker spawn_init
spawn_run_batch-Leaves_example =
    spawn_run_batch-Leaves dumps_ok processor [] "worker-1.ndjson" 0 tasks worker tt

pool_map_batches-Answers_example :
    Answers processor
      (λ w. w)
      (tasks ∷ tasks ∷ [])
      (pool_map_batches processor (λ w. w) (pos 1) (λ n. machine.world) (tasks ∷ tasks ∷ []))
pool_map_batches-Answers_example =
    pool_map_batches-Answers processor (λ w. w) 0 (λ n. machine.world) (tasks ∷ tasks ∷ [])
