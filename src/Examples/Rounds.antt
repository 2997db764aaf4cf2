-- ===== src/Examples/Rounds.antt =====
-- Rounding on whole milliseconds, where `/` on integers gives the whole number that is not below the
-- quotient, and what is rounded.
use bulk_http.Prelude.{
  ℕ, zero, suc, ◌+◌, ◌*◌, ◌/◌, ◌≤◌, ◌<◌, ◌≡◌, [], ◌∷◌, arith, leb, inl, inr, Bool-cases, refl,
  string_keys,
}
use native.Mathlib.Nat.{div-mul-le_self, lt-div-mul-add, mul-le-mul_right, suc-mul}
use bulk_http.Prelude.Int.{pos}
use bulk_http.Except.{ok}
use bulk_http.Floats.Millis.{millis}
use bulk_http.Floats.Rounding.{Rounding}
use bulk_http.Concurrency.Sizing.{compute_workers, effective_concurrency}
use bulk_http.Concurrency.Sizing.Enough.{compute_workers_lem}
use bulk_http.Metrics.Snapshot.{percentile}
use bulk_http.Metrics.Snapshot.Percentiles.{IsNearestRank, percentile-IsNearestRank}

ceil_lem : (x n : ℕ) → leb ((x + 999) / 1000) n ≡ leb x (n * 1000)
ceil_lem x n = ground arith

quotient : ℕ → ℕ → ℕ
quotient a zero = 0
quotient a (suc b) = (a + b) / suc b * 1000

nearest :
    (a c q n : ℕ)
    → q * suc c ≤ a + c
    → a + c < q * suc c + suc c
    → leb (q * 1000) (n * 1000) ≡ leb a (n * suc c)
nearest a c q n low high = elim (Bool-cases (leb q n)) [
  | inl e ↦
      let few : q ≤ n = ground (arith, e) in
      let more : q * suc c ≤ n * suc c = mul-le-mul_right (suc c) few in ground (arith, few, more)
  | inr e ↦
      let past : suc n ≤ q = ground (arith, e) in
      let more : suc n * suc c ≤ q * suc c = mul-le-mul_right (suc c) past in
      ground (arith, past, more, suc-mul n (suc c))
]

quotient_lem : (a b n : ℕ) → 0 < b → leb (quotient a b) (n * 1000) ≡ leb a (n * b)
unfolding quotient
quotient_lem a zero n h = absurd (omega arith)
quotient_lem a (suc c) n h =
    nearest a c ((a + c) / suc c) n (div-mul-le_self (a + c) (suc c))
      (lt-div-mul-add {a = a + c} {b = suc c} (omega arith))

abbrev rounding : Rounding millis
rounding = record {
  ceil = λ x. pos ((x + 999) / 1000);
  ceil_le = λ x n few. ceil_lem x n;
  true_div = quotient;
  true_div_le = λ a b n small h few. quotient_lem a b n h;
}

compute_workers_lem_example :
    (n : ℕ) × (compute_workers rounding 1000 600 "windows" ≡ ok (suc n))
    × (1000 ≤ suc n * 450)
    × (n * 450 < 1000)
unfolding effective_concurrency
compute_workers_lem_example =
    compute_workers_lem rounding 1000 600 449 "windows" (omega arith) (omega arith) refl

percentile-IsNearestRank_example :
    IsNearestRank millis 1500
      (percentile millis (rounding.ceil) (30 ∷ 10 ∷ 20 ∷ []) 50)
      (30 ∷ 10 ∷ 20 ∷ [])
percentile-IsNearestRank_example =
    percentile-IsNearestRank millis rounding 30 (10 ∷ 20 ∷ []) 50 (omega arith) refl
