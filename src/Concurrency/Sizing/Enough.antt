-- ===== src/Concurrency/Sizing/Enough.antt =====
-- The number of workers of src/bulk_http/concurrency/sizing.py against the target.
use bulk_http.Prelude.{ℕ, zero, suc, ◌*◌, ◌≤◌, ◌<◌, String, ◌≡◌, ◌∙◌, arith, leb}
use bulk_http.Prelude.Int.{ℤ, pos, negsuc, int_le}
use native.Mathlib.Nat.{zero-mul, le-mul_of_pos_right}
use bulk_http.Except.{ok, ◌>>=◌}
use bulk_http.Floats.{Floats}
use bulk_http.Floats.Rounding.{Rounding, exact_bound}
use bulk_http.Concurrency.Sizing.{compute_workers, effective_concurrency, max_one, ceil_div}

-- An integer that is at most `n` exactly where `n` workers of the capacity reach the target.
sized :
    (target c : ℕ) (z : ℤ)
    → 1 ≤ target
    → target < exact_bound
    → ((n : ℕ) → n ≤ exact_bound → int_le z n ≡ leb target (n * suc c))
    → (n : ℕ) × (max_one z ≡ suc n) × (target ≤ suc n * suc c) × (n * suc c < target)
sized target c (negsuc k) h small law =
    absurd (ground (arith, law 0 (omega arith), zero-mul (suc c), h))
sized target c (pos zero) h small law =
    absurd (ground (arith, law 0 (omega arith), zero-mul (suc c), h))
sized target c (pos (suc n)) h small law =
    let room : target ≤ target * suc c = le-mul_of_pos_right target (omega arith) in
    let below : suc n ≤ target = ground (arith, law target (omega arith), room) in
    let enough : target ≤ suc n * suc c = ground (arith, law (suc n) (omega arith)) in
    let least : n * suc c < target = ground (arith, law n (omega arith)) in
    (n, ground arith, enough, least)

with_capacity :
    {F : Floats} (R : Rounding F) (target c k m : ℕ)
    → k ≡ suc c
    → max_one (R.ceil (R.true_div target (suc c))) ≡ m
    → (ceil_div R target k >>= λ z. ok (max_one z)) ≡ ok m
with_capacity R target c k m e h = rw (e, h)

-- The workers of a positive target below 2^53, at the concurrency that the platform sustains, reach
-- it together, there is at least one of them, and one worker fewer would not reach the target. It
-- is assumed of `/` and math.ceil that they round as IEEE floats do.
pub compute_workers_lem :
    {F : Floats} (R : Rounding F) (target per_worker_cap c : ℕ) (os_name : String)
    → 1 ≤ target
    → target < exact_bound
    → effective_concurrency per_worker_cap os_name ≡ suc c
    → (n : ℕ) × (compute_workers R target per_worker_cap os_name ≡ ok (suc n))
      × (target ≤ suc n * suc c)
      × (n * suc c < target)
unfolding compute_workers
compute_workers_lem {F} R target per_worker_cap c os_name h small e =
    let (n, m, enough, least) =
      sized target c (R.ceil (R.true_div target (suc c))) h small (λ k few.
        R.ceil_le (R.true_div target (suc c)) k few
        ∙ R.true_div_le target (suc c) k small (omega arith) few) in
    (
      n,
      with_capacity R target c (effective_concurrency per_worker_cap os_name) (suc n) e m,
      enough,
      least,
    )
