-- ===== src/Proxies/Adaptive.antt =====
-- src/bulk_http/proxies/adaptive.py: the adaptive limiter. What `record` wrote before it raises
-- stays written, so the state comes back beside the error too.
pub mod Rates
pub mod Bans
use bulk_http.Prelude.{
  ℕ, suc, ◌+◌, String, Bool, true, false, List, [], ◌∷◌, string_keys, if◌then◌else◌,
}
use bulk_http.Prelude.Int.{ℤ, int_le}
use bulk_http.Except.{Except, ok, raise, ban_suspected}
use bulk_http.Floats.{Floats, max_f, min_f}
use bulk_http.Dict.{Dict, get, get_or, put}
use bulk_http.Proxies.AdaptiveConfig.{AdaptiveRateConfig}
use bulk_http.Proxies.Health.{Outcome, succeeded, transport_error, rate_limited, origin_error}
use bulk_http.Proxies.RateLimit.{Slot, reserve}

pub record AdaptiveRateLimiter (F : Floats) : Type 0 where
  pub config : AdaptiveRateConfig F
  pub rates : Dict String F.Float
  pub next : Dict String F.Float
  pub successes : Dict String ℕ
  pub fail_at_min : Dict String ℕ

-- AdaptiveRateLimiter(config)
unfoldable pub new_adaptive : {F : Floats} → AdaptiveRateConfig F → AdaptiveRateLimiter F
new_adaptive c = record { config = c; rates = []; next = []; successes = []; fail_at_min = [] }

module _ {F : Floats} where
  -- AdaptiveRateLimiter.rate
  unfoldable pub rate : AdaptiveRateLimiter F → String → F.Float
  rate l domain = get_or domain l.config.start_rate l.rates

  -- AdaptiveRateLimiter.acquire, where the clock shows `now`
  unfoldable pub acquire_adaptive :
      AdaptiveRateLimiter F → String → F.Float → Slot F × AdaptiveRateLimiter F
  acquire_adaptive l domain now =
      let interval = F.div_f F.one_f (rate l domain) in
      let slot = reserve F now (get_or domain F.zero_f l.next) in
      (slot, record l { next = put domain (F.add_f slot.start interval) l.next })

  -- the branch of `record` for a failure
  unfoldable pub record_failure :
      AdaptiveRateLimiter F → String → Except (Unit {0}) × AdaptiveRateLimiter F
  record_failure l domain =
      let already_at_min = F.le_f (rate l domain) l.config.min_rate in
      let lowered = record l {
        successes = put domain 0 l.successes;
        rates =
            put domain
              (max_f F l.config.min_rate (F.mul_f (rate l domain) l.config.decrease_factor))
              l.rates;
      } in
      let streak = get_or domain 0 l.fail_at_min + 1 in
      if already_at_min
      then (
        if int_le l.config.ban_failures streak then raise ban_suspected else ok tt,
        record lowered { fail_at_min = put domain streak l.fail_at_min },
      )
      else (ok tt, record lowered { fail_at_min = put domain 0 l.fail_at_min })

  -- the branch of `record` for a success
  unfoldable pub record_success : AdaptiveRateLimiter F → String → AdaptiveRateLimiter F
  record_success l domain =
      let streak = get_or domain 0 l.successes + 1 in
      let reset = put domain 0 l.fail_at_min in
      if int_le l.config.increase_after streak
      then record l {
        fail_at_min = reset;
        rates =
            put domain (min_f F l.config.max_rate (F.add_f (rate l domain) l.config.increase_step))
              l.rates;
        successes = put domain 0 l.successes;
      }
      else record l { fail_at_min = reset; successes = put domain streak l.successes }

  -- AdaptiveRateLimiter.record
  unfoldable pub record_adaptive :
      AdaptiveRateLimiter F → String → Outcome → Except (Unit {0}) × AdaptiveRateLimiter F
  record_adaptive l domain rate_limited = record_failure l domain
  record_adaptive l domain transport_error = record_failure l domain
  record_adaptive l domain succeeded = (ok tt, record_success l domain)
  record_adaptive l domain origin_error = (ok tt, l)
