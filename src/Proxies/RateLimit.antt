-- ===== src/Proxies/RateLimit.antt =====
-- src/bulk_http/proxies/ratelimit.py: the fixed rate per domain. `acquire` reads the clock and
-- reserves its slot before its only `await`, so each call is one step, whatever runs concurrently.
pub mod Spacing
use bulk_http.Prelude.{String, Bool, Option, none, some, List, [], ◌∷◌, string_keys, if◌then◌else◌}
use bulk_http.Except.{Except, ok, value_error, ◌>>=◌, ◌>>◌, raise_if}
use bulk_http.Floats.{Floats, lt_f, max_f}
use bulk_http.Dict.{Dict, get, get_or, put}

pub record DomainRateLimiter (F : Floats) : Type 0 where
  pub interval : F.Float
  pub next : Dict String F.Float

-- DomainRateLimiter(rate)
unfoldable pub new_limiter : (F : Floats) → F.Float → Except (DomainRateLimiter F)
new_limiter F rate = do
  raise_if (F.le_f rate F.zero_f) value_error
  ok (record { interval = F.div_f F.one_f rate; next = [] })

-- The slot that a call reserves, and how long it then sleeps, if it does.
pub record Slot (F : Floats) : Type 0 where
  pub start : F.Float
  pub sleeps : Option F.Float

-- the lines that both limiters share: from the time and the earliest slot to the slot and the sleep
abbrev pub reserve : (F : Floats) → F.Float → F.Float → Slot F
reserve F now earliest =
    let start = max_f F now earliest in
    let wait = F.sub_f start now in
    record { start = start; sleeps = if lt_f F F.zero_f wait then some wait else none }

-- DomainRateLimiter.acquire, where the clock shows `now`
unfoldable pub acquire :
    {F : Floats} → DomainRateLimiter F → String → F.Float → Slot F × DomainRateLimiter F
acquire {F} l domain now =
    let slot = reserve F now (get_or domain F.zero_f l.next) in
    (slot, record l { next = put domain (F.add_f slot.start l.interval) l.next })
