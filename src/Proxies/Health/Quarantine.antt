-- ===== src/Proxies/Health/Quarantine.antt =====
-- The quarantine of src/bulk_http/proxies/health.py after failures in a row.
use bulk_http.Prelude.{
  ℕ, zero, suc, ◌+◌, ◌≤◌, ◌<◌, ◌≡◌, refl, ap, ◌∙◌, Bool, true, false, List, [], ◌∷◌, ◌++◌, length,
  arith,
}
use bulk_http.Except.{Except, ok, ◌>>=◌}
use bulk_http.Floats.{Floats}
use bulk_http.Proxies.Health.{
  transport_error, ProxyHealth, push, judge_window, record_outcome, is_available, count_failed,
}
use bulk_http.Proxies.Health.Window.{push_room}

abbrev failed_times : ℕ → List Bool
failed_times zero = []
failed_times (suc n) = true ∷ failed_times n

length-failed_times : (n : ℕ) → length (failed_times n) ≡ n
length-failed_times zero = refl
length-failed_times (suc n) = ap suc (length-failed_times n)

count_failed-failed_times : (n : ℕ) → count_failed (failed_times n) ≡ n
count_failed-failed_times zero = refl
count_failed-failed_times (suc n) = ap suc (count_failed-failed_times n)

failed_times-append : (n : ℕ) → failed_times n ++ true ∷ [] ≡ failed_times (suc n)
failed_times-append zero = refl
failed_times-append (suc n) = ap (◌∷◌ true) (failed_times-append n)

push-failed_times :
    (n maxlen : ℕ) → n < maxlen → push maxlen (failed_times n) true ≡ failed_times (suc n)
push-failed_times n maxlen h =
    push_room maxlen (failed_times n) true (omega (arith, length-failed_times n))
    ∙ failed_times-append n

module _ {F : Floats} where
  -- The proxy fails at each of the times.
  unfoldable pub fail_all : ProxyHealth F → List F.Float → Except (ProxyHealth F)
  fail_all h [] = ok h
  fail_all h (now ∷ later) = do h' ← record_outcome h transport_error now; fail_all h' later

  abbrev with_failures : ProxyHealth F → ℕ → ProxyHealth F
  with_failures h k = record h { window = failed_times k }

  one_more :
      (h : ProxyHealth F) (k : ℕ) (now : F.Float)
      → suc k < h.min_samples
      → h.min_samples ≤ h.maxlen
      → record_outcome (with_failures h k) transport_error now ≡ ok (with_failures h (suc k))
  unfolding record_outcome judge_window
  one_more h k now few fits =
      rw (push-failed_times k h.maxlen (omega arith)) (ground (arith, length-failed_times k))

  trips_now :
      (h : ProxyHealth F) (k : ℕ) (now : F.Float)
      → suc k ≡ h.min_samples
      → F.le_f h.failure_threshold (F.div_f (F.of_nat h.min_samples) (F.of_nat h.min_samples))
        ≡ true
      → judge_window (with_failures h (suc k)) now
        ≡ ok (record h { quarantined_until = F.add_f now h.cooldown; window = [] })
  unfolding judge_window
  trips_now h k now all trips = ground (arith, length-failed_times k, count_failed-failed_times k)

  the_last :
      (h : ProxyHealth F) (k : ℕ) (now : F.Float)
      → suc k ≡ h.min_samples
      → h.min_samples ≤ h.maxlen
      → F.le_f h.failure_threshold (F.div_f (F.of_nat h.min_samples) (F.of_nat h.min_samples))
        ≡ true
      → record_outcome (with_failures h k) transport_error now
        ≡ ok (record h { quarantined_until = F.add_f now h.cooldown; window = [] })
  unfolding record_outcome
  the_last h k now all fits trips =
      ap (λ w. judge_window (record h { window = w }) now)
        (push-failed_times k h.maxlen (omega arith))
      ∙ trips_now h k now all trips

  all_failures :
      (h : ProxyHealth F) (k : ℕ) (ts : List F.Float) (now : F.Float)
      → k + suc (length ts) ≡ h.min_samples
      → h.min_samples ≤ h.maxlen
      → F.le_f h.failure_threshold (F.div_f (F.of_nat h.min_samples) (F.of_nat h.min_samples))
        ≡ true
      → fail_all (with_failures h k) (ts ++ now ∷ [])
        ≡ ok (record h { quarantined_until = F.add_f now h.cooldown; window = [] })
  unfolding fail_all
  all_failures h k [] now sum fits trips = ground (arith, the_last h k now)
  all_failures h k (t ∷ ts) now sum fits trips =
      ground (arith, one_more h k t, all_failures h (suc k) ts now)

  -- A proxy with an empty window that fails `min_samples` times in a row, where that many failures
  -- out of as many reach the threshold and fit into the window, is quarantined at the last of them
  -- for the whole cooldown: its window is empty again, and it is not available before that time.
  pub fail_all-quarantines :
      (h : ProxyHealth F) (ts : List F.Float) (now later : F.Float)
      → h.window ≡ []
      → suc (length ts) ≡ h.min_samples
      → h.min_samples ≤ h.maxlen
      → F.le_f h.failure_threshold (F.div_f (F.of_nat h.min_samples) (F.of_nat h.min_samples))
        ≡ true
      → F.le_f (F.add_f now h.cooldown) later ≡ false
      → (h' : ProxyHealth F) × (fail_all h (ts ++ now ∷ []) ≡ ok h')
        × (h'.quarantined_until ≡ F.add_f now h.cooldown)
        × (h'.window ≡ [])
        × (is_available h' later ≡ false)
  unfolding is_available
  fail_all-quarantines h ts now later empty all fits trips early = (
    record h { quarantined_until = F.add_f now h.cooldown; window = [] },
    ground (arith, empty, all_failures h 0 ts now),
    refl,
    refl,
    ground (arith, early),
  )
