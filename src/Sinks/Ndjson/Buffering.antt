-- ===== src/Sinks/Ndjson/Buffering.antt =====
-- The buffer of src/bulk_http/sinks/ndjson.py against writing each line at once.
use bulk_http.Prelude.{
  ℕ, ◌<◌, ◌≡◌, refl, ap, sym, ◌∙◌, inl, inr, List, [], ◌∷◌, ◌++◌, length, leb, concat, map, arith,
  append-nil, append_assoc, Bool-cases,
}
use bulk_http.Floats.{Floats}
use bulk_http.Value.{Value}
use bulk_http.Models.{Result}
use bulk_http.Sinks.Serialize.{result_to_line}
use bulk_http.Sinks.Ndjson.{Sink, write_bytes, write, commit}

-- what the sink has taken, written or not
abbrev pub taken : Sink → List ℕ
taken s = s.file ++ s.buffer

pub write_bytes_lem :
    (s : Sink) (line : List ℕ)
    → (taken (write_bytes s line) ≡ taken s ++ line)
      × ((write_bytes s line).flush_bytes ≡ s.flush_bytes)
unfolding write_bytes
write_bytes_lem s line = elim (Bool-cases (leb s.flush_bytes (length (s.buffer ++ line)))) [
  | inl full ↦
      ground
        (arith, full, append-nil (s.file ++ (s.buffer ++ line)), append_assoc s.file s.buffer line)
  | inr few ↦ ground (arith, few, append_assoc s.file s.buffer line)
]

-- what stays in memory is less than the flush size
write_bytes_small :
    (s : Sink) (line : List ℕ)
    → 0 < s.flush_bytes
    → length (write_bytes s line).buffer < s.flush_bytes
unfolding write_bytes
write_bytes_small s line h = elim (Bool-cases (leb s.flush_bytes (length (s.buffer ++ line)))) [
  | inl full ↦ ground (arith, full)
  | inr few ↦ ground (arith, few)
]

module _ {F : Floats} (dumps : Value F → List ℕ) where
  -- for result in results: sink.write(result)
  unfoldable pub write_all : Sink → List (Result F) → Sink
  write_all s [] = s
  write_all s (r ∷ rs) = write_all (write dumps s r) rs

  abbrev pub lines : List (Result F) → List ℕ
  lines rs = concat (map (result_to_line dumps) rs)

  write_all_lem :
      (s : Sink) (rs : List (Result F))
      → 0 < s.flush_bytes
      → length s.buffer < s.flush_bytes
      → (taken (write_all s rs) ≡ taken s ++ lines rs)
        × (length (write_all s rs).buffer < s.flush_bytes)
  unfolding write_all write
  write_all_lem s [] h b = (sym (append-nil (taken s)), b)
  write_all_lem s (r ∷ rs) h b =
      let line = result_to_line dumps r in
      let (grows, same) = write_bytes_lem s line in
      let small = write_bytes_small s line h in
      let (all, few) =
        write_all_lem (write dumps s r) rs (omega (arith, same)) (omega (arith, same, small)) in
      (
        all ∙ ap (λ t. t ++ lines rs) grows ∙ append_assoc (taken s) line (lines rs),
        omega (arith, few, same),
      )

  pub write_all-flush_bytes :
      (s : Sink) (rs : List (Result F)) → (write_all s rs).flush_bytes ≡ s.flush_bytes
  unfolding write_all write
  write_all-flush_bytes s [] = refl
  write_all-flush_bytes s (r ∷ rs) =
      write_all-flush_bytes (write dumps s r) rs ∙ (write_bytes_lem s (result_to_line dumps r)).1

  -- However the writes of a batch are flushed, a commit afterwards leaves an empty buffer and a
  -- file that is what the sink had taken before and then one line for each result, in order; the
  -- offset that it returns is the length of that file. Before the commit the memory that the sink
  -- holds stays below the flush size.
  pub commit-write_all :
      (s : Sink) (rs : List (Result F))
      → 0 < s.flush_bytes
      → length s.buffer < s.flush_bytes
      → ((commit (write_all s rs)).1.file ≡ taken s ++ lines rs)
        × ((commit (write_all s rs)).1.buffer ≡ [])
        × ((commit (write_all s rs)).0 ≡ length (taken s ++ lines rs))
        × (length (write_all s rs).buffer < s.flush_bytes)
  unfolding commit
  commit-write_all s rs h b =
      let (all, few) = write_all_lem s rs h b in (all, refl, ap length all, few)
