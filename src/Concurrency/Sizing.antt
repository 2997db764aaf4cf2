-- ===== src/Concurrency/Sizing.antt =====
-- src/bulk_http/concurrency/sizing.py: how many workers, and which event loop.
pub mod Enough
use bulk_http.Prelude.{
  ℕ, zero, suc, String, Bool, true, false, Option, none, some, ◌==◌, string_keys, ltb,
  if◌then◌else◌, nat_beq, ◌&&◌,
}
use bulk_http.Prelude.Int.{ℤ, pos, negsuc}
use bulk_http.Except.{Except, ok, raise, zero_division, ◌>>=◌}
use bulk_http.Floats.{Floats}
use bulk_http.Floats.Rounding.{Rounding}
use bulk_http.Config.{Workers, auto_workers, count}

abbrev pub windows_socket_cap : ℕ
windows_socket_cap = 450

-- min(a, b) and max(a, b)
abbrev pub min_nat : ℕ → ℕ → ℕ
min_nat a b = if ltb b a then b else a

abbrev pub max_nat : ℕ → ℕ → ℕ
max_nat a b = if ltb a b then b else a

unfoldable pub effective_concurrency : ℕ → String → ℕ
effective_concurrency per_worker_cap os_name =
    if os_name == "windows" then min_nat per_worker_cap windows_socket_cap else per_worker_cap

-- max(1, z)
abbrev pub max_one : ℤ → ℕ
max_one (pos n) = max_nat 1 n
max_one (negsuc n) = 1

module _ {F : Floats} (R : Rounding F) where
  -- math.ceil(a / b)
  abbrev pub ceil_div : ℕ → ℕ → Except ℤ
  ceil_div a zero = raise zero_division
  ceil_div a (suc b) = ok (R.ceil (R.true_div a (suc b)))

  unfoldable pub compute_workers : ℕ → ℕ → String → Except ℕ
  unfolding effective_concurrency
  compute_workers target per_worker_cap os_name =
      ceil_div target (effective_concurrency per_worker_cap os_name) >>= λ z. ok (max_one z)

-- max(1, cpu_count or 1)
abbrev pub cpus : Option ℕ → ℕ
cpus none = 1
cpus (some n) = max_nat 1 (if nat_beq n 0 then 1 else n)

unfoldable pub resolve_workers : Workers → Option ℕ → ℤ
resolve_workers auto_workers cpu_count = pos (cpus cpu_count)
resolve_workers (count z) cpu_count = z

unfoldable pub choose_loop : String → Bool → Bool → Bool → String
choose_loop os_name uvloop_available winloop_available prefer_winloop =
    if os_name == "windows"
    then if winloop_available && prefer_winloop then "winloop" else "selector"
    else if uvloop_available
    then "uvloop"
    else "default"
