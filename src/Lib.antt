-- ===== src/Lib.antt =====
-- bulk_http: a campaign of HTTP requests, from a stream of tasks to files of results.
--
-- The engine (src/bulk_http/engine) numbers batches of tasks, hands them to workers and commits what
-- they wrote to a checkpoint. A worker runs each task through a processor (concurrency/processor.py),
-- which resolves the request, picks a proxy, waits for the rate limiter, performs the request with
-- retries, classifies the outcome and evaluates the response; results that match go to an NDJSON sink.
-- Paths below are those of the files under src/bulk_http.
--
--   Models, Config    models.py, _types.py, config.py: records with the constructors' checks as
--                     functions into Except (post_init, check_context, check_config) and
--                     EngineConfig.effective.
--   Net.Transport     net/transport.py: the transport, clock, jitter and sleep as an interface Env on
--                     an abstract world; Net.Fake is net/fake.py.
--   Net.Curl          net/curl.py, with the session of curl_cffi as a parameter. A body is a function
--                     from the number of a pull to what it gives, so that it may have no end; the
--                     loop of Stream-Cut runs on a number of pulls, and on the wire as many as the
--                     threshold has bytes are enough.
--   Net.Retry         net/retry.py: perform_with_retries; the loop of range(retries + 1) is recursion
--                     on that number. Trace is the abstract specification, Refinement relates the two.
--   Proxies           proxies/health.py, pool.py, ratelimit.py and adaptive.py, each a state record
--                     with its methods as functions of the state and the time, and backconnect.py.
--   Concurrency       chunking.py, sizing.py, the loop of WorkerPool.map_batches and
--                     SpawnExecutor.execute (InFlight), what the pool yields (Pool), and TaskProcessor (Processor, and its
--                     run_batch in Deferral).
--   Decompress        decompress.py, with the libraries' decoders as parameters. The chunk loop runs
--                     on as much fuel as there are bytes; every round takes at least one.
--   Evaluate          evaluate/: status, needles, context and pipeline.
--   Compliance        compliance/filter.py, robots.py, and robots_gate.py with its throttle cut at the
--                     sleep.
--   Metrics           metrics/batch.py and collector.py; random numbers are a state that `draw` reads.
--                     Snapshot has the percentiles; what is relied on of math.ceil, and of `/` on
--                     integers, which Concurrency.Sizing uses, is in Floats.Rounding.
--   Sinks             sinks/serialize.py and ndjson.py: a file is its bytes. CsvExport has
--                     sinks/csv_export.py, with the formatting of a row as a parameter.
--   Checkpoint        checkpoint/store.py and resume.py: the manifest as bytes and as entries.
--   Engine.Prepare    engine/core.py: _prepare and the batches that a run hands out, on lists.
--   Engine.Stream     the same as generators, which are pulled batch by batch: a Stream is what a
--                     generator yields and how it ends. Eager relates the two.
--   Engine.Control    engine/control.py, and on_control with the counters of engine/core.py.
--   Engine.Executor   engine/executor.py: the loop of InProcessExecutor (drive) on the processor's
--                     state, the sink and the coordinator. Ledger is what batches mean to a campaign,
--                     Refinement relates the loop to it, Crashes relates it to Engine.Campaign.
--   Engine.Run        engine/core.py: Engine.run with the executor that the engine makes for one
--                     worker, and engine/ratelimit_support.py. Outside is what a run uses of the
--                     standard library and of orjson.
--   Engine.Spawn      engine/spawn.py: the state of a worker process and its batches. Fleet is a step
--                     relation on the disk of several workers, any interleaving of which is allowed as
--                     long as a worker finishes its own batches in the order of their submission. A
--                     new run starts only where a batch was collected, and a result that orjson does
--                     not serialize ends a worker's batch.
--   Engine.RobotsSupport engine/robots_support.py: the fetcher of robots.txt over the transport.
--   Sources           sources/: requests from fields (Build), and the sources over what their readers
--                     yield, with the numbering of tasks (Rows).
--   Engine.Campaign   engine/core.py and executor.py: a step relation on the disk of a campaign with
--                     one worker file; a crash is a campaign that stops between two of its steps, and
--                     Torn has the crash in the middle of an append to the manifest. A batch's output
--                     is what was written since the commit before it.
--
-- Floats is an interface of Python's float with the laws that IEEE arithmetic has where nothing is NaN; Millis
-- is an instance. Except is a result or an exception class, Effects a state beside it. Dict is a dict
-- in insertion order. Integers that may be negative are a data type over the natural numbers.
--
-- Libraries are parameters: orjson (Checkpoint.Store.Codec says what the manifest relies on of it),
-- zlib, brotli, zstandard, pyahocorasick, selectolax, RobotFileParser, and of Python the parts that
-- read URLs, fold case and split text (Texts). Examples applies the theorems at concrete inputs; its
-- Codec is a manifest codec with the laws that are asked of orjson.
--
-- Tasks of one pass run one after the other, the schedule of a concurrency of one. In
-- ProxyHealth.record the window keeps the sample only if the call returns. The executor of one process is modelled for results that orjson serializes: in result_to_line `dumps`
-- is total, and line_or_raise of Engine.Spawn is the same with the exception. Not modelled: processes
-- and pickling, the opening of files, and fsync, which the campaign takes to keep what was committed.
pub mod Prelude
pub mod Dict
pub mod Floats
pub mod Except
pub mod Effects
pub mod Types
pub mod Value
pub mod Models
pub mod Proxies
pub mod Config
pub mod Net
pub mod Concurrency
pub mod Sinks
pub mod Sources
pub mod Bytes
pub mod Checkpoint
pub mod Engine
pub mod Texts
pub mod Decompress
pub mod Evaluate
pub mod Compliance
pub mod Metrics
pub mod Examples
