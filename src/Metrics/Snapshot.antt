-- ===== src/Metrics/Snapshot.antt =====
-- `_percentile`, MetricsSnapshot and `snapshot` of src/bulk_http/metrics/collector.py.
pub mod Sorting
pub mod Percentiles
use bulk_http.Prelude.{
  ℕ, zero, suc, ◌-◌, String, Bool, true, false, Option, none, some, List, [], ◌∷◌, length, leb,
  if◌then◌else◌,
}
use bulk_http.Prelude.Int.{ℤ, pos, negsuc}
use bulk_http.Floats.{Floats, lt_f}
use bulk_http.Dict.{Dict}
use bulk_http.Metrics.{MetricsCollector}

pub record MetricsSnapshot (F : Floats) : Type 0 where
  pub total : ℕ
  pub matched : ℕ
  pub by_status : Dict ℕ ℕ
  pub errors : Dict String ℕ
  pub p50 : F.Float
  pub p95 : F.Float
  pub p99 : F.Float
  pub throughput : F.Float
  pub elapsed_wall : F.Float

-- max(rank - 1, 0)
abbrev pub before : ℤ → ℕ
before (pos n) = n - 1
before (negsuc n) = 0

-- min(a, b)
abbrev pub lesser : ℕ → ℕ → ℕ
lesser a b = if leb a b then a else b

module _ (F : Floats) where
  open F use {Float}

  -- sorted(samples), by insertion
  unfoldable pub insert : Float → List Float → List Float
  insert x [] = x ∷ []
  insert x (y ∷ ys) = let rest = insert x ys in if F.le_f x y then x ∷ y ∷ ys else y ∷ rest

  unfoldable pub sorted_floats : List Float → List Float
  unfolding insert
  sorted_floats [] = []
  sorted_floats (x ∷ xs) = insert x (sorted_floats xs)

  -- ordered[i], of a list that has the default behind its end
  abbrev pub at : List Float → ℕ → Float
  at [] i = F.zero_f
  at (x ∷ xs) zero = x
  at (x ∷ xs) (suc i) = at xs i

  -- math.ceil(pct / 100.0 * count), for a given `ceil`
  abbrev pub rank : (Float → ℤ) → ℕ → ℕ → ℤ
  rank ceil pct count = ceil (F.mul_f (F.div_f (F.of_nat pct) (F.of_nat 100)) (F.of_nat count))

  -- the index of a percentile among `count` samples
  abbrev pub index : (Float → ℤ) → ℕ → ℕ → ℕ
  index ceil pct count = lesser (before (rank ceil pct count)) (count - 1)

  -- _percentile
  unfoldable pub percentile : (Float → ℤ) → List Float → ℕ → Float
  unfolding sorted_floats
  percentile ceil [] pct = F.zero_f
  percentile ceil (x ∷ xs) pct =
      let ordered = sorted_floats (x ∷ xs) in at ordered (index ceil pct (length ordered))

-- MetricsCollector.snapshot, where the clock shows `now`
unfoldable pub snapshot :
    {F : Floats} {W : Type 0} → (F.Float → ℤ) → F.Float → MetricsCollector F W → MetricsSnapshot F
unfolding percentile
snapshot {F} ceil now m =
    let elapsed = F.sub_f now m.start in
    record {
      total = m.total;
      matched = m.matched;
      by_status = m.by_status;
      errors = m.errors;
      p50 = percentile F ceil m.latencies 50;
      p95 = percentile F ceil m.latencies 95;
      p99 = percentile F ceil m.latencies 99;
      throughput = if lt_f F F.zero_f elapsed then F.div_f (F.of_nat m.total) elapsed else F.zero_f;
      elapsed_wall = elapsed;
    }
