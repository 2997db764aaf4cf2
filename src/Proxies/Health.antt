-- ===== src/Proxies/Health.antt =====
-- src/bulk_http/proxies/health.py: the classes of outcomes, and the breaker of one proxy.
pub mod Window
pub mod Quarantine
use bulk_http.Prelude.{
  ℕ, zero, suc, ◌-◌, Bool, true, false, List, [], ◌∷◌, ◌++◌, length, drop, Option, none, some, ltb,
  leb, if◌then◌else◌, is_some, ◌||◌, ◌&&◌,
}
use bulk_http.Except.{Except, ok, raise, zero_division}
use bulk_http.Floats.{Floats}
use bulk_http.Net.Transport.{RawResponse}
use bulk_http.Net.Retry.{status_is}

pub data Outcome : Type 0 where
  succeeded transport_error rate_limited origin_error : Outcome

-- `status is not None and 500 <= status < 600`
abbrev pub is_server_error : Option ℕ → Bool
is_server_error none = false
is_server_error (some s) = leb 500 s && ltb s 600

unfoldable pub classify_outcome : {F : Floats} → RawResponse F → Outcome
classify_outcome response =
    if is_some response.error
    then transport_error
    else if status_is response.status 407
    then transport_error
    else if status_is response.status 429
    then rate_limited
    else if status_is response.status 403 || is_server_error response.status
    then origin_error
    else succeeded

pub record ProxyHealth (F : Floats) : Type 0 where
  -- the deque, oldest sample first, and its maxlen
  pub window : List Bool
  pub maxlen : ℕ
  pub failure_threshold : F.Float
  pub min_samples : ℕ
  pub cooldown : F.Float
  pub rate_limit_backoff : F.Float
  pub quarantined_until : F.Float
  pub backoff_until : F.Float

-- deque(maxlen).append(x): the oldest samples fall out
unfoldable pub push : ℕ → List Bool → Bool → List Bool
push maxlen window failed = drop (length (window ++ failed ∷ []) - maxlen) (window ++ failed ∷ [])

-- sum(1 for failed in window if failed)
abbrev pub count_failed : List Bool → ℕ
count_failed [] = 0
count_failed (true ∷ window) = suc (count_failed window)
count_failed (false ∷ window) = count_failed window

module _ {F : Floats} where
  -- the rest of `record`, once the sample is in the window
  unfoldable pub judge_window : ProxyHealth F → F.Float → Except (ProxyHealth F)
  judge_window h now =
      if ltb (length h.window) h.min_samples then ok h else elim (length h.window) [
        | zero ↦ raise zero_division
        | suc n ↦
            if F.le_f h.failure_threshold
              (F.div_f (F.of_nat (count_failed h.window)) (F.of_nat (suc n)))
            then ok (record h { quarantined_until = F.add_f now h.cooldown; window = [] })
            else ok h
      ]

  -- ProxyHealth.record
  unfoldable pub record_outcome : ProxyHealth F → Outcome → F.Float → Except (ProxyHealth F)
  record_outcome h rate_limited now =
      ok (record h { backoff_until = F.add_f now h.rate_limit_backoff })
  record_outcome h origin_error now = ok h
  record_outcome h succeeded now =
      judge_window (record h { window = push h.maxlen h.window false }) now
  record_outcome h transport_error now =
      judge_window (record h { window = push h.maxlen h.window true }) now

  -- ProxyHealth.is_available
  unfoldable pub is_available : ProxyHealth F → F.Float → Bool
  is_available h now = F.le_f h.quarantined_until now && F.le_f h.backoff_until now

-- ProxyHealth(...): the breaker of a new proxy
unfoldable pub new_health : (F : Floats) → ℕ → F.Float → ℕ → F.Float → F.Float → ProxyHealth F
new_health F window failure_threshold min_samples cooldown rate_limit_backoff = record {
  window = [];
  maxlen = window;
  failure_threshold = failure_threshold;
  min_samples = min_samples;
  cooldown = cooldown;
  rate_limit_backoff = rate_limit_backoff;
  quarantined_until = F.zero_f;
  backoff_until = F.zero_f;
}
