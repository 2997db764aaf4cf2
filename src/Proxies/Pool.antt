-- ===== src/Proxies/Pool.antt =====
-- src/bulk_http/proxies/pool.py: round-robin selection over the proxies that are available.
pub mod Selection
pub mod Reports
use bulk_http.Prelude.{
  ℕ, zero, suc, ◌+◌, ◌%◌, String, Bool, true, false, List, [], ◌∷◌, length, get_elem?, Option, none,
  some, string_keys,
}
use bulk_http.Except.{Error, Except, ok, raise, index_error, key_error, ◌>>=◌}
use bulk_http.Floats.{Floats}
use bulk_http.Dict.{Dict, get, put}
use bulk_http.Proxies.Health.{Outcome, ProxyHealth, new_health, record_outcome, is_available}

pub record ProxyPool (F : Floats) : Type 0 where
  pub proxies : List String
  pub health : Dict String (ProxyHealth F)
  pub cursor : ℕ

-- {proxy: ProxyHealth(...) for proxy in proxies}
unfoldable pub fresh_health :
    {F : Floats}
    → ProxyHealth F
    → List String
    → Dict String (ProxyHealth F)
    → Dict String (ProxyHealth F)
fresh_health new [] d = d
fresh_health new (p ∷ ps) d = fresh_health new ps (put p new d)

-- ProxyPool(...)
unfoldable pub new_pool :
    (F : Floats) → List String → ℕ → F.Float → ℕ → F.Float → F.Float → ProxyPool F
unfolding fresh_health new_health
new_pool F proxies window failure_threshold min_samples cooldown rate_limit_backoff = record {
  proxies = proxies;
  health =
      fresh_health (new_health F window failure_threshold min_samples cooldown rate_limit_backoff)
        proxies [];
  cursor = 0;
}

-- proxies[cursor] and health[proxy], which raise on a bad index or key
abbrev pub or_raise {ℓ} : {A : Type ℓ} → Option A → Error → Except A
or_raise none x = raise x
or_raise (some a) x = ok a

module _ {F : Floats} where
  -- One round of the loop: the proxy at the cursor, whether it is free, and the moved cursor.
  unfoldable pub look : ProxyPool F → F.Float → Except (String × Bool × ProxyPool F)
  look p now = do
    proxy ← or_raise (get_elem? p.proxies p.cursor) index_error
    h ← or_raise (get proxy p.health) key_error
    ok (proxy, is_available h now, record p { cursor = (p.cursor + 1) % length p.proxies })

  -- the loop of `select`, by the rounds that are left
  unfoldable pub select_from : ℕ → ProxyPool F → F.Float → Except (Option String × ProxyPool F)
  select_from zero p now = ok (none, p)
  select_from (suc n) p now = elim (look p now) [
    | raise x ↦ raise x
    | ok (proxy, true, p') ↦ ok (some proxy, p')
    | ok (proxy, false, p') ↦ select_from n p' now
  ]

  -- ProxyPool.select
  unfoldable pub select : ProxyPool F → F.Float → Except (Option String × ProxyPool F)
  select p now = select_from (length p.proxies) p now

  -- ProxyPool.report
  unfoldable pub report : ProxyPool F → String → Outcome → F.Float → Except (ProxyPool F)
  report p proxy outcome now = elim (get proxy p.health) [
    | none ↦ ok p
    | some h ↦ do
      h' ← record_outcome h outcome now
      ok (record p { health = put proxy h' p.health })
  ]
