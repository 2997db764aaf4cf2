-- ===== src/Examples/Limits.antt =====
-- The limiters on whole milliseconds.
use bulk_http.Prelude.{ℕ, refl, String, List, [], ◌∷◌, string_keys}
use bulk_http.Prelude.Int.{pos}
use bulk_http.Floats.Millis.{millis}
use bulk_http.Proxies.AdaptiveConfig.{AdaptiveRateConfig, check_adaptive}
use bulk_http.Proxies.Health.{rate_limited}
use bulk_http.Proxies.RateLimit.{DomainRateLimiter, new_limiter}
use bulk_http.Proxies.RateLimit.Spacing.{acquire_all, IsSpaced, new_limiter-IsSpaced}
use bulk_http.Proxies.Adaptive.{AdaptiveRateLimiter, new_adaptive, record_adaptive}
use bulk_http.Proxies.Adaptive.Rates.{IsWithin, record_adaptive-IsWithin, new_adaptive-IsWithin}

-- two requests a second
abbrev twice : DomainRateLimiter millis
twice = record { interval = 500; next = [] }

abbrev calls : List (String × ℕ)
calls = ("a.test", 0) ∷ ("b.test", 10) ∷ ("a.test", 20) ∷ []

new_limiter-IsSpaced_example : IsSpaced {F = millis} 500 (acquire_all {F = millis} twice calls)
unfolding new_limiter
new_limiter-IsSpaced_example = new_limiter-IsSpaced {F = millis} 2000 twice calls refl

-- from 4 requests a second down to 1, where a third failure suspects a ban
abbrev pub config : AdaptiveRateConfig millis
config = record {
  start_rate = 4000;
  min_rate = 1000;
  max_rate = 8000;
  increase_step = 500;
  increase_after = pos 2;
  decrease_factor = 500;
  ban_failures = pos 2;
  max_attempts = pos 3;
}

abbrev start : AdaptiveRateLimiter millis
unfolding new_adaptive
start = new_adaptive {F = millis} config

start-IsWithin : IsWithin {F = millis} start
unfolding check_adaptive new_adaptive start
start-IsWithin = new_adaptive-IsWithin {F = millis} config config refl

record_adaptive-IsWithin_example :
    IsWithin {F = millis} (record_adaptive {F = millis} start "a.test" rate_limited).1
record_adaptive-IsWithin_example =
    record_adaptive-IsWithin {F = millis} start "a.test" rate_limited start-IsWithin
