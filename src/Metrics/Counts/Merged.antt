-- ===== src/Metrics/Counts/Merged.antt =====
-- The totals of a collector into which the summaries of batches were merged.
use bulk_http.Prelude.{
  ℕ, ◌+◌, ◌≤◌, String, List, [], ◌∷◌, ◌++◌, ◌≡◌, refl, ap, sym, arith, length, length-append,
  concat, append_assoc, append-nil, nat_keys, string_keys, subst,
}
use bulk_http.Floats.{Floats}
use bulk_http.Dict.{get, tally}
use bulk_http.Models.{Result}
use bulk_http.Metrics.{
  MetricsCollector, add_counts, compute_batch_stats, merge, new_collector, no_stats,
}
use bulk_http.Metrics.Counts.{
  sum_at, tally-add_counts, occurrences, matches, add_results-total, add_results-matched,
  add_results-by_status, add_results-errors, occurrences-append, matches-append,
  sample_latencies-Sampled,
}

module _ {F : Floats} {W : Type 0} (draw : ℕ → W → ℕ × W) where
  -- The collector counts these results, and keeps a sample of bounded size.
  pub record Exact (size : ℕ) (rs : List (Result F)) (m : MetricsCollector F W) : Type 0 where
    pub totals : m.total ≡ length rs
    pub matched_results : m.matched ≡ matches rs
    pub statuses : (s : ℕ) → tally s m.by_status ≡ occurrences (λ r. r.status) s rs
    pub failures : (x : String) → tally x m.errors ≡ occurrences (λ r. r.error) x rs
    pub size_is : m.reservoir_size ≡ size
    pub small : length m.latencies ≤ size

  -- the batches of a campaign, summarised and merged one after the other
  unfoldable pub merge_all :
      ℕ → MetricsCollector F W → List (List (Result F)) → MetricsCollector F W
  unfolding merge compute_batch_stats
  merge_all sample_cap m [] = m
  merge_all sample_cap m (rs ∷ rss) =
      merge_all sample_cap (merge draw m (compute_batch_stats rs sample_cap)) rss

  merge-Exact :
      (size sample_cap : ℕ) (rs qs : List (Result F)) (m : MetricsCollector F W)
      → Exact size rs m
      → Exact size (rs ++ qs) (merge draw m (compute_batch_stats qs sample_cap))
  unfolding merge compute_batch_stats sum_at
  merge-Exact size sample_cap rs qs m x =
      let b = compute_batch_stats qs sample_cap in
      let s =
        sample_latencies-Sampled draw
          (record m {
            total = m.total + b.total;
            matched = m.matched + b.matched;
            by_status = add_counts m.by_status b.by_status;
            errors = add_counts m.errors b.errors;
          })
          b.latencies in
      record {
        totals = omega (
          arith,
          s.total_same,
          x.totals,
          add_results-total sample_cap no_stats qs,
          length-append rs qs,
        );
        matched_results = omega (
          arith,
          s.matched_same,
          x.matched_results,
          add_results-matched sample_cap no_stats qs,
          matches-append rs qs,
        );
        statuses = λ k.
            let same : tally k (merge draw m b).by_status
                ≡ tally k (add_counts m.by_status b.by_status) =
              ap (tally k) s.by_status_same in
            omega (
              arith,
              same,
              tally-add_counts m.by_status b.by_status k,
              x.statuses k,
              add_results-by_status sample_cap no_stats qs k,
              occurrences-append (λ r. r.status) k rs qs,
            );
        failures = λ k.
            let same : tally k (merge draw m b).errors ≡ tally k (add_counts m.errors b.errors) =
              ap (tally k) s.errors_same in
            omega (
              arith,
              same,
              tally-add_counts m.errors b.errors k,
              x.failures k,
              add_results-errors sample_cap no_stats qs k,
              occurrences-append (λ r. r.error) k rs qs,
            );
        size_is = rw (s.size_same, x.size_is);
        small =
            subst (λ k. length (merge draw m b).latencies ≤ k) x.size_is
              (s.bounded (subst (λ k. length m.latencies ≤ k) (sym x.size_is) x.small));
      }

  merge_all-Exact :
      (size sample_cap : ℕ) (rs : List (Result F)) (rss : List (List (Result F)))
      (m : MetricsCollector F W)
      → Exact size rs m
      → Exact size (rs ++ concat rss) (merge_all sample_cap m rss)
  unfolding merge_all
  merge_all-Exact size sample_cap rs [] m x = subst (λ l. Exact size l m) (sym (append-nil rs)) x
  merge_all-Exact size sample_cap rs (qs ∷ rss) m x =
      subst (λ l. Exact size l (merge_all sample_cap m (qs ∷ rss)))
        (append_assoc rs qs (concat rss))
        (merge_all-Exact size sample_cap (rs ++ qs) rss
          (merge draw m (compute_batch_stats qs sample_cap))
          (merge-Exact size sample_cap rs qs m x))

  -- Merging the summaries of any cut of a campaign's results into batches gives the exact totals,
  -- matches, status counts and error counts of all the results together, and the sample of
  -- latencies stays within the reservoir.
  pub merge_all-new_collector :
      (size sample_cap : ℕ) (start : F.Float) (w : W) (rss : List (List (Result F)))
      → Exact size (concat rss) (merge_all sample_cap (new_collector size start w) rss)
  unfolding new_collector matches occurrences tally get
  merge_all-new_collector size sample_cap start w rss =
      merge_all-Exact size sample_cap [] rss (new_collector size start w) (record {
        totals = refl;
        matched_results = refl;
        statuses = λ s. refl;
        failures = λ x. refl;
        size_is = refl;
        small = omega arith;
      })
