-- ===== src/Floats/Rounding.antt =====
-- What src/bulk_http/metrics/collector.py and src/bulk_http/concurrency/sizing.py use of the
-- rounding of floats: math.ceil, and `/` on two integers, which gives the float nearest to the
-- quotient. That `/` raises where this is too large for a float is left out.
use bulk_http.Prelude.{ℕ, ◌*◌, ◌≤◌, ◌<◌, ◌≡◌, leb}
use bulk_http.Prelude.Int.{ℤ, int_le}
use bulk_http.Floats.{Floats}

-- 2^53: the integers up to here are floats
abbrev pub exact_bound : ℕ
exact_bound = 9007199254740992

pub record Rounding (F : Floats) : Type 0 where
  -- math.ceil: the least integer that is not below
  pub ceil : F.Float → ℤ
  pub ceil_le : (x : F.Float) (n : ℕ) → n ≤ exact_bound → int_le (ceil x) n ≡ F.le_f x (F.of_nat n)
  -- a / b for integers, b not 0
  pub true_div : ℕ → ℕ → F.Float
  -- rounding to the nearest float does not carry a quotient over an integer, where the dividend is
  -- below 2^53
  pub true_div_le :
      (a b n : ℕ)
      → a < exact_bound
      → 0 < b
      → n ≤ exact_bound
      → F.le_f (true_div a b) (F.of_nat n) ≡ leb a (n * b)
