-- ===== src/Metrics/Counts.antt =====
-- The counts of src/bulk_http/metrics against those of the results themselves.
pub mod Merged
use bulk_http.Prelude.{
  ℕ, zero, suc, ◌+◌, ◌≤◌, String, Bool, true, false, Option, none, some, List, [], ◌∷◌, ◌++◌, ◌≡◌,
  refl, ap, arith, length, length-append, length-set, set, concat, ltb, HasEq, ◌==◌, nat_keys,
  string_keys, if◌then◌else◌, Bool-cases, inl, inr,
}
use bulk_http.Floats.{Floats}
use bulk_http.Dict.{Dict, get, get_or, put, tally, add}
use bulk_http.Dict.Laws.{tally-add}
use bulk_http.Models.{Result}
use bulk_http.Metrics.{
  BatchStats, MetricsCollector, plus_if, count_key, add_counts, add_result, add_results,
  compute_batch_stats, sample_latency, sample_latencies, merge, new_collector,
}

module _ {ℓ} {K : Type ℓ} ⦃e : HasEq K⦄ where
  -- one, if the key is this one
  pub hit : Option K → K → ℕ
  hit none k = 0
  hit (some j) k = if j == k then 1 else 0

  -- the sum of the entries of a key, in a dict that is added to a counter
  pub sum_at : K → Dict K ℕ → ℕ
  sum_at k [] = 0
  sum_at k ((j, n) ∷ d) = (if j == k then n else 0) + sum_at k d

  sum_at-put :
      (k j : K) (n : ℕ) (d : Dict K ℕ)
      → sum_at j (put k (get_or k 0 d + n) d) ≡ sum_at j d + (if k == j then n else 0)
  unfolding sum_at put get
  sum_at-put k j n [] = ground arith
  sum_at-put k j n ((i, w) ∷ d) =
      ground (arith, sum_at-put k j n d, e.same_iff i k, e.same_iff i j, e.same_iff k j)

  pub sum_at-count_key :
      (o : Option K) (j : K) (d : Dict K ℕ) → sum_at j (count_key o d) ≡ sum_at j d + hit o j
  unfolding count_key add tally hit
  sum_at-count_key none j d = omega arith
  sum_at-count_key (some k) j d = sum_at-put k j 1 d

  pub tally-add_counts :
      (c d : Dict K ℕ) (j : K) → tally j (add_counts c d) ≡ tally j c + sum_at j d
  unfolding add_counts sum_at
  tally-add_counts c [] j = omega arith
  tally-add_counts c ((k, n) ∷ d) j =
      omega (arith, tally-add_counts (add k n c) d j, tally-add k j n c)

module _ {F : Floats} where
  -- how many results have this key
  pub occurrences {ℓ} : {K : Type ℓ} ⦃e : HasEq K⦄ → (Result F → Option K) → K → List (Result F) → ℕ
  unfolding hit
  occurrences f k [] = 0
  occurrences f k (r ∷ rs) = hit (f r) k + occurrences f k rs

  pub matches : List (Result F) → ℕ
  matches [] = 0
  matches (r ∷ rs) = plus_if r.matched (matches rs)

  pub add_results-total :
      (sample_cap : ℕ) (b : BatchStats F) (rs : List (Result F))
      → (add_results sample_cap b rs).total ≡ b.total + length rs
  unfolding add_results add_result
  add_results-total sample_cap b [] = omega arith
  add_results-total sample_cap b (r ∷ rs) =
      omega (arith, add_results-total sample_cap (add_result sample_cap b r) rs)

  pub add_results-matched :
      (sample_cap : ℕ) (b : BatchStats F) (rs : List (Result F))
      → (add_results sample_cap b rs).matched ≡ b.matched + matches rs
  unfolding add_results add_result matches
  add_results-matched sample_cap b [] = omega arith
  add_results-matched sample_cap b (r ∷ rs) =
      ground (arith, add_results-matched sample_cap (add_result sample_cap b r) rs)

  pub add_results-by_status :
      (sample_cap : ℕ) (b : BatchStats F) (rs : List (Result F)) (s : ℕ)
      → sum_at s (add_results sample_cap b rs).by_status
        ≡ sum_at s b.by_status + occurrences (λ r. r.status) s rs
  unfolding add_results add_result occurrences
  add_results-by_status sample_cap b [] s = omega arith
  add_results-by_status sample_cap b (r ∷ rs) s = omega (
    arith,
    add_results-by_status sample_cap (add_result sample_cap b r) rs s,
    sum_at-count_key r.status s b.by_status,
  )

  pub add_results-errors :
      (sample_cap : ℕ) (b : BatchStats F) (rs : List (Result F)) (x : String)
      → sum_at x (add_results sample_cap b rs).errors
        ≡ sum_at x b.errors + occurrences (λ r. r.error) x rs
  unfolding add_results add_result occurrences
  add_results-errors sample_cap b [] x = omega arith
  add_results-errors sample_cap b (r ∷ rs) x = omega (
    arith,
    add_results-errors sample_cap (add_result sample_cap b r) rs x,
    sum_at-count_key r.error x b.errors,
  )

  pub occurrences-append {ℓ} :
      {K : Type ℓ} ⦃e : HasEq K⦄ (f : Result F → Option K) (k : K) (rs qs : List (Result F))
      → occurrences f k (rs ++ qs) ≡ occurrences f k rs + occurrences f k qs
  unfolding occurrences
  occurrences-append f k [] qs = omega arith
  occurrences-append f k (r ∷ rs) qs = omega (arith, occurrences-append f k rs qs)

  pub matches-append : (rs qs : List (Result F)) → matches (rs ++ qs) ≡ matches rs + matches qs
  unfolding matches
  matches-append [] qs = omega arith
  matches-append (r ∷ rs) qs = ground (arith, matches-append rs qs)

module _ {F : Floats} {W : Type 0} (draw : ℕ → W → ℕ × W) where
  -- what the sampling of a latency leaves alone, and the bound that it keeps
  pub record Sampled (m m' : MetricsCollector F W) : Type 0 where
    pub total_same : m'.total ≡ m.total
    pub matched_same : m'.matched ≡ m.matched
    pub by_status_same : m'.by_status ≡ m.by_status
    pub errors_same : m'.errors ≡ m.errors
    pub size_same : m'.reservoir_size ≡ m.reservoir_size
    pub bounded : length m.latencies ≤ m.reservoir_size → length m'.latencies ≤ m.reservoir_size

  sample_latency-Sampled :
      (m : MetricsCollector F W) (t : F.Float) → Sampled m (sample_latency draw m t)
  unfolding sample_latency
  sample_latency-Sampled m t = elim (Bool-cases (ltb (length m.latencies) m.reservoir_size)) [
    | inl h ↦ record {
      total_same = ground arith;
      matched_same = ground arith;
      by_status_same = ground arith;
      errors_same = ground arith;
      size_same = ground arith;
      bounded = λ b. ground (arith, h, length-append m.latencies (t ∷ []));
    }
    | inr h ↦
        let (index, random) = draw (m.latency_seen + 1) m.random in
        record {
          total_same = rw h;
          matched_same = rw h;
          by_status_same = rw h;
          errors_same = rw h;
          size_same = rw h;
          bounded = λ b. ground (arith, h, length-set m.latencies index t);
        }
  ]

  pub sample_latencies-Sampled :
      (m : MetricsCollector F W) (ts : List F.Float) → Sampled m (sample_latencies draw m ts)
  unfolding sample_latencies
  sample_latencies-Sampled m [] = record {
    total_same = refl;
    matched_same = refl;
    by_status_same = refl;
    errors_same = refl;
    size_same = refl;
    bounded = λ b. b;
  }
  sample_latencies-Sampled m (t ∷ ts) =
      let one = sample_latency-Sampled m t in
      let more = sample_latencies-Sampled (sample_latency draw m t) ts in
      record {
        total_same = rw (more.total_same, one.total_same);
        matched_same = rw (more.matched_same, one.matched_same);
        by_status_same = rw (more.by_status_same, one.by_status_same);
        errors_same = rw (more.errors_same, one.errors_same);
        size_same = rw (more.size_same, one.size_same);
        bounded = λ b. ground (arith, more.bounded, one.bounded b, one.size_same);
      }
