-- ===== src/Proxies/Health/Window.antt =====
-- The window of the breaker of src/bulk_http/proxies/health.py.
use bulk_http.Prelude.{
  ℕ, suc, ◌-◌, ◌≤◌, ◌<◌, ◌≡◌, refl, inl, inr, Bool, true, false, List, [], ◌∷◌, ◌++◌, length,
  length-append, length-drop, arith, Bool-cases, ltb,
}
use bulk_http.Except.{Except, ok}
use bulk_http.Floats.{Floats}
use bulk_http.Proxies.Health.{
  Outcome, succeeded, transport_error, rate_limited, origin_error, ProxyHealth, push, judge_window,
  record_outcome, count_failed,
}

pub length-push-le :
    (maxlen : ℕ) (window : List Bool) (b : Bool) → length (push maxlen window b) ≤ maxlen
unfolding push
length-push-le maxlen window b =
    omega (arith, length-drop (length (window ++ b ∷ []) - maxlen) (window ++ b ∷ []))

pub push_room :
    (maxlen : ℕ) (window : List Bool) (b : Bool)
    → length window < maxlen
    → push maxlen window b ≡ window ++ b ∷ []
unfolding push
push_room maxlen window b h =
    let gap : length (window ++ b ∷ []) - maxlen ≡ 0 =
      omega (arith, length-append window (b ∷ [])) in
    rw gap

-- a sample is in the window after a push
pub push_pos :
    (maxlen : ℕ) (window : List Bool) (b : Bool) → 0 < maxlen → 0 < length (push maxlen window b)
unfolding push
push_pos maxlen window b h = omega (
  arith,
  length-drop (length (window ++ b ∷ []) - maxlen) (window ++ b ∷ []),
  length-append window (b ∷ []),
)

module _ {F : Floats} where
  -- the window holds no more than its deque can
  abbrev pub IsBounded : ProxyHealth F → Type 0
  IsBounded h = length h.window ≤ h.maxlen

  -- `record` succeeds, and the new health has the bounded window of a deque of the same size.
  abbrev pub Records : ProxyHealth F → Except (ProxyHealth F) → Type 0
  Records h out = (h' : ProxyHealth F) × (out ≡ ok h') × IsBounded h' × (h'.maxlen ≡ h.maxlen)

  judge_window-Records :
      (h : ProxyHealth F) (now : F.Float)
      → 0 < length h.window
      → IsBounded h
      → Records h (judge_window h now)
  unfolding judge_window
  judge_window-Records h now some_samples b =
      let n : ℕ = length h.window - 1 in
      let e : length h.window ≡ suc n = omega arith in
      elim (Bool-cases (ltb (length h.window) h.min_samples)) [
        | inl few ↦ (h, rw few, b, refl)
        | inr enough ↦
            elim (Bool-cases (
              F.le_f h.failure_threshold
                (F.div_f (F.of_nat (count_failed h.window)) (F.of_nat (suc n))))) [
                  | inl trips ↦ (
                    record h { quarantined_until = F.add_f now h.cooldown; window = [] },
                    ground (arith, enough, trips, e),
                    omega arith,
                    refl,
                  )
                  | inr stays ↦ (h, ground (arith, enough, stays, e), b, refl)
                ]
      ]

  -- With room for a sample, recording any outcome raises nothing, and the window stays within the
  -- size of its deque, which does not change.
  pub record_outcome-Records :
      (h : ProxyHealth F) (o : Outcome) (now : F.Float)
      → 0 < h.maxlen
      → IsBounded h
      → Records h (record_outcome h o now)
  unfolding record_outcome
  record_outcome-Records h rate_limited now room b = (_, refl, b, refl)
  record_outcome-Records h origin_error now room b = (h, refl, b, refl)
  record_outcome-Records h succeeded now room b =
      judge_window-Records (record h { window = push h.maxlen h.window false }) now
        (push_pos h.maxlen h.window false room) (length-push-le h.maxlen h.window false)
  record_outcome-Records h transport_error now room b =
      judge_window-Records (record h { window = push h.maxlen h.window true }) now
        (push_pos h.maxlen h.window true room) (length-push-le h.maxlen h.window true)
