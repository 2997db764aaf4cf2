-- ===== src/Sinks/Ndjson.antt =====
-- src/bulk_http/sinks/ndjson.py: buffered writes and durable commits. The file is its bytes as the
-- operating system has them; what a crash may lose of them is the business of Checkpoint.
pub mod Buffering
use bulk_http.Prelude.{ℕ, List, [], ◌∷◌, ◌++◌, length, leb, if◌then◌else◌}
use bulk_http.Floats.{Floats}
use bulk_http.Value.{Value}
use bulk_http.Models.{Result}
use bulk_http.Sinks.Serialize.{result_to_line}

pub record Sink : Type 0 where
  pub file : List ℕ
  pub buffer : List ℕ
  pub flush_bytes : ℕ

-- NdjsonWorkerSink(path): the file is opened for appending
unfoldable pub open_sink : ℕ → List ℕ → Sink
open_sink flush_bytes file = record { file = file; buffer = []; flush_bytes = flush_bytes }

-- NdjsonWorkerSink._flush_buffer
unfoldable pub flush_buffer : Sink → Sink
flush_buffer s = record s { file = s.file ++ s.buffer; buffer = [] }

-- the lines of `write` that do not depend on the result
unfoldable pub write_bytes : Sink → List ℕ → Sink
unfolding flush_buffer
write_bytes s line =
    let grown = record s { buffer = s.buffer ++ line } in
    if leb s.flush_bytes (length grown.buffer) then flush_buffer grown else grown

-- NdjsonWorkerSink.write
unfoldable pub write : {F : Floats} → (Value F → List ℕ) → Sink → Result F → Sink
unfolding write_bytes result_to_line
write dumps s r = write_bytes s (result_to_line dumps r)

-- NdjsonWorkerSink.commit: the offset is the file's length after the flush
unfoldable pub commit : Sink → ℕ × Sink
unfolding flush_buffer
commit s = let flushed = flush_buffer s in (length flushed.file, flushed)

-- NdjsonWorkerSink.close
unfoldable pub close : Sink → List ℕ
unfolding flush_buffer
close s = (flush_buffer s).file
