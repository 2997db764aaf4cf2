-- ===== src/Examples/Robots.antt =====
-- One origin with a crawl delay of half a second.
use bulk_http.Prelude.{ℕ, ◌+◌, ◌≡◌, refl, true, [], ◌∷◌, some}
use bulk_http.Except.{ok}
use bulk_http.Floats.Millis.{millis}
use bulk_http.Dict.{get}
use bulk_http.Compliance.RobotsCache.{can_fetch_url}
use bulk_http.Compliance.RobotsCache.Twin.{cache_of, forget, can_fetch_url-allowed_url}
use bulk_http.Compliance.Robots.{allowed_url, Robots, AsyncRobotsGate, plan_throttle, end_throttle}
use bulk_http.Compliance.Robots.Delays.{earliest, overlap_lem, plan_throttle-end_throttle}

-- the world counts the fetches, and a parser is its delay
abbrev robots : Robots millis
robots = record {
  World = ℕ;
  Parser = ℕ;
  origin = λ url. ok "https://a.test";
  fetch = λ url w. (ok (some "Crawl-delay: 0.5"), w + 1);
  parse = λ content. 500;
  can_fetch = λ p agent url. true;
  crawl_delay = λ p agent. some p;
}

abbrev gate : AsyncRobotsGate {F = millis} robots
gate = record { user_agent = "*"; cache = []; next_allowed = []; world = 0 }

-- the gate after the first fetch
abbrev filled : AsyncRobotsGate {F = millis} robots
filled = record gate { cache = ("https://a.test", some 500) ∷ []; world = 1 }

-- a request was released, and the next one waits for 1500
abbrev held_back : AsyncRobotsGate {F = millis} robots
held_back = record filled { next_allowed = ("https://a.test", 1500) ∷ [] }

plan_throttle-end_throttle_example :
    millis.le_f
      ((plan_throttle {F = millis} robots held_back "https://a.test" 500 1200).start + 500)
      (plan_throttle {F = millis} robots
        (end_throttle {F = millis} robots held_back
          (plan_throttle {F = millis} robots held_back "https://a.test" 500 1200))
        "https://a.test"
        500
        1600).start
    ≡ true
plan_throttle-end_throttle_example =
    plan_throttle-end_throttle {F = millis} robots "https://a.test" held_back 500 1200 1600

overlap_lem_example :
    ((plan_throttle {F = millis} robots held_back "https://a.test" 500 1200).start ≡ 1500)
    × ((plan_throttle {F = millis} robots held_back "https://a.test" 500 1300).start ≡ 1500)
    × (earliest {F = millis} robots "https://a.test" (
          end_throttle {F = millis} robots
            (end_throttle {F = millis} robots held_back
              (plan_throttle {F = millis} robots held_back "https://a.test" 500 1200))
            (plan_throttle {F = millis} robots held_back "https://a.test" 500 1300))
        ≡ 2000)
unfolding get
overlap_lem_example =
    overlap_lem {F = millis} robots "https://a.test" held_back 500 1200 1300 refl refl

can_fetch_url-allowed_url_example :
    can_fetch_url {F = millis} robots "https://a.test/page" (cache_of {F = millis} robots gate)
    ≡ forget {F = millis} robots (allowed_url {F = millis} robots "https://a.test/page" gate)
can_fetch_url-allowed_url_example =
    can_fetch_url-allowed_url {F = millis} robots "https://a.test/page" gate
