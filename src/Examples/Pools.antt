-- ===== src/Examples/Pools.antt =====
-- A pool of two proxies, of which the first one fails.
use bulk_http.Prelude.{◌≡◌, refl, false, String, List, [], ◌∷◌, string_keys, arith}
use bulk_http.Except.{ok}
use bulk_http.Floats.Millis.{millis}
use bulk_http.Proxies.Health.{transport_error, ProxyHealth, new_health, is_available}
use bulk_http.Proxies.Health.Quarantine.{fail_all, fail_all-quarantines}
use bulk_http.Proxies.Pool.{ProxyPool, new_pool, select}
use bulk_http.Proxies.Pool.Selection.{Selected, select-Selected}
use bulk_http.Proxies.Pool.Reports.{
  Inv, Call, selects, reports, run_calls, run_calls-new_pool, new_pool-Inv,
}

abbrev proxies : List String
proxies = "http://one.test" ∷ "http://two.test" ∷ []

-- windows of 4 samples, a threshold of one half, 2 samples at least
abbrev pool : ProxyPool millis
unfolding new_pool
pool = new_pool millis proxies 4 500 2 60_000 5000

pool-Inv : Inv {F = millis} pool
unfolding pool
pool-Inv = new_pool-Inv {F = millis} proxies 4 500 2 60_000 5000 (omega arith)

select-Selected_example : Selected {F = millis} pool 100 2 pool (select {F = millis} pool 100)
unfolding pool
select-Selected_example = select-Selected {F = millis} pool 100 pool-Inv.valid

abbrev calls : List (Call millis)
calls =
    selects 0
    ∷ reports "http://one.test" transport_error 10
    ∷ selects 20
    ∷ reports "http://one.test" transport_error 30
    ∷ selects 40
    ∷ []

run_calls-new_pool_example :
    (p : ProxyPool millis) × (run_calls {F = millis}
        (new_pool millis proxies 4 500 2 60_000 5000)
        calls
      ≡ ok p)
    × Inv {F = millis} p
run_calls-new_pool_example =
    run_calls-new_pool {F = millis} proxies 4 500 2 60_000 5000 calls (omega arith)

abbrev breaker : ProxyHealth millis
unfolding new_health
breaker = new_health millis 4 500 3 60_000 5000

fail_all-quarantines_example :
    (h' : ProxyHealth millis) × (fail_all {F = millis} breaker (10 ∷ 20 ∷ 30 ∷ []) ≡ ok h')
    × (h'.quarantined_until ≡ 60_030)
    × (h'.window ≡ [])
    × (is_available {F = millis} h' 50_000 ≡ false)
unfolding breaker
fail_all-quarantines_example =
    fail_all-quarantines {F = millis} breaker (10 ∷ 20 ∷ []) 30 50_000 refl refl (omega arith) refl
      refl
