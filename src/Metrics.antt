-- ===== src/Metrics.antt =====
-- src/bulk_http/metrics: the summary of one batch, and the collector that adds summaries up.
pub mod Counts
pub mod Snapshot
use bulk_http.Prelude.{
  ℕ, zero, suc, ◌+◌, String, Bool, true, false, Option, none, some, List, [], ◌∷◌, ◌++◌, length,
  set, ltb, HasEq, nat_keys, string_keys, if◌then◌else◌,
}
use bulk_http.Floats.{Floats}
use bulk_http.Dict.{Dict, add}
use bulk_http.Models.{Result}

pub record BatchStats (F : Floats) : Type 0 where
  pub total : ℕ
  pub matched : ℕ
  pub by_status : Dict ℕ ℕ
  pub errors : Dict String ℕ
  pub latencies : List F.Float

abbrev pub default_sample_cap : ℕ
default_sample_cap = 256

abbrev pub no_stats : {F : Floats} → BatchStats F
no_stats = record { total = 0; matched = 0; by_status = []; errors = []; latencies = [] }

-- `if flag: n += 1`
abbrev pub plus_if : Bool → ℕ → ℕ
plus_if true n = n + 1
plus_if false n = n

module _ {ℓ} {K : Type ℓ} ⦃e : HasEq K⦄ where
  -- `if key is not None: counter[key] += 1`
  unfoldable pub count_key : Option K → Dict K ℕ → Dict K ℕ
  count_key none c = c
  count_key (some k) c = add k 1 c

  -- for key, count in counts.items(): counter[key] += count
  unfoldable pub add_counts : Dict K ℕ → Dict K ℕ → Dict K ℕ
  add_counts c [] = c
  add_counts c ((k, n) ∷ d) = add_counts (add k n c) d

-- `if result.elapsed is not None and len(latencies) < sample_cap: latencies.append(...)`
unfoldable pub sample {ℓ} : {A : Type ℓ} → ℕ → Option A → List A → List A
sample sample_cap none latencies = latencies
sample sample_cap (some t) latencies =
    if ltb (length latencies) sample_cap then latencies ++ t ∷ [] else latencies

module _ {F : Floats} where
  -- the body of the loop of compute_batch_stats, with the total that is len(results)
  unfoldable pub add_result : ℕ → BatchStats F → Result F → BatchStats F
  add_result sample_cap b r = record {
    total = b.total + 1;
    matched = plus_if r.matched b.matched;
    by_status = count_key r.status b.by_status;
    errors = count_key r.error b.errors;
    latencies = sample sample_cap r.elapsed b.latencies;
  }

  unfoldable pub add_results : ℕ → BatchStats F → List (Result F) → BatchStats F
  unfolding add_result
  add_results sample_cap b [] = b
  add_results sample_cap b (r ∷ rs) = add_results sample_cap (add_result sample_cap b r) rs

  unfoldable pub compute_batch_stats : List (Result F) → ℕ → BatchStats F
  unfolding add_results
  compute_batch_stats results sample_cap = add_results sample_cap no_stats results

-- `W` holds the state of the random numbers, and `draw n` is `int(rng() * n)`.
pub record MetricsCollector (F : Floats) (W : Type 0) : Type 0 where
  pub reservoir_size : ℕ
  pub start : F.Float
  pub total : ℕ
  pub matched : ℕ
  pub by_status : Dict ℕ ℕ
  pub errors : Dict String ℕ
  pub latencies : List F.Float
  pub latency_seen : ℕ
  pub random : W

module _ {F : Floats} {W : Type 0} (draw : ℕ → W → ℕ × W) where
  -- MetricsCollector._sample_latency
  unfoldable pub sample_latency : MetricsCollector F W → F.Float → MetricsCollector F W
  sample_latency m value =
      if ltb (length m.latencies) m.reservoir_size
      then record m { latency_seen = m.latency_seen + 1; latencies = m.latencies ++ value ∷ [] }
      else (let (index, random) = draw (m.latency_seen + 1) m.random in
          record m {
            latency_seen = m.latency_seen + 1;
            random = random;
            latencies =
                if ltb index m.reservoir_size then set m.latencies index value else m.latencies;
          })

  unfoldable pub sample_latencies : MetricsCollector F W → List F.Float → MetricsCollector F W
  sample_latencies m [] = m
  sample_latencies m (t ∷ ts) = sample_latencies (sample_latency m t) ts

  -- `if result.elapsed is not None: self._sample_latency(result.elapsed)`
  abbrev pub sample_elapsed : MetricsCollector F W → Option F.Float → MetricsCollector F W
  sample_elapsed m none = m
  sample_elapsed m (some t) = sample_latency m t

  -- MetricsCollector.record
  unfoldable pub record_result : MetricsCollector F W → Result F → MetricsCollector F W
  record_result m r =
      sample_elapsed
        (record m {
          total = m.total + 1;
          matched = plus_if r.matched m.matched;
          by_status = count_key r.status m.by_status;
          errors = count_key r.error m.errors;
        })
        r.elapsed

  -- MetricsCollector.merge
  unfoldable pub merge : MetricsCollector F W → BatchStats F → MetricsCollector F W
  unfolding add_counts sample_latencies
  merge m stats =
      sample_latencies
        (record m {
          total = m.total + stats.total;
          matched = m.matched + stats.matched;
          by_status = add_counts m.by_status stats.by_status;
          errors = add_counts m.errors stats.errors;
        })
        stats.latencies

-- MetricsCollector(reservoir_size=...), at the time `start`
unfoldable pub new_collector : {F : Floats} {W : Type 0} → ℕ → F.Float → W → MetricsCollector F W
new_collector reservoir_size start random = record {
  reservoir_size = reservoir_size;
  start = start;
  total = 0;
  matched = 0;
  by_status = [];
  errors = [];
  latencies = [];
  latency_seen = 0;
  random = random;
}
