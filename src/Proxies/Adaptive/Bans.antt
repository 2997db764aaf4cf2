-- ===== src/Proxies/Adaptive/Bans.antt =====
-- The suspicion of a ban in src/bulk_http/proxies/adaptive.py.
use bulk_http.Prelude.{
  ℕ, zero, suc, ◌+◌, ◌<◌, ◌≡◌, sym, subst, ap, ◌∙◌, String, Bool, true, false, string_keys, arith,
  Bool-cases, inl, inr, ltb, ltb→lt, ltb_no, if◌then◌else◌,
}
use bulk_http.Prelude.Int.{pos, int_le}
use bulk_http.Except.{Error, Except, ok, raise, ban_suspected}
use bulk_http.Floats.{Floats}
use bulk_http.Dict.{get_or}
use bulk_http.Dict.Laws.{get_or-put, eq_refl}
use bulk_http.Proxies.Health.{Outcome, succeeded, transport_error, rate_limited, origin_error}
use bulk_http.Proxies.Adaptive.{
  AdaptiveRateLimiter, rate, record_failure, record_success, record_adaptive,
}
use bulk_http.Proxies.Adaptive.Rates.{
  IsWithin, failure-IsWithin, lowered-le, rate-record_failure, config-failure,
}

abbrev pub IsFailure : Outcome → Type 0
IsFailure rate_limited = Unit
IsFailure transport_error = Unit
IsFailure succeeded = ⊥
IsFailure origin_error = ⊥

module _ {F : Floats} where
  abbrev pub at_floor : AdaptiveRateLimiter F → String → Bool
  at_floor l d = F.le_f (rate l d) l.config.min_rate

  -- the failures counted toward a ban
  abbrev pub counted : AdaptiveRateLimiter F → String → ℕ
  counted l d = get_or d 0 l.fail_at_min

  failure_raises :
      (l : AdaptiveRateLimiter F) (d : String) (x : Error)
      → (record_failure l d).0 ≡ raise x
      → (x ≡ ban_suspected)
        × (at_floor l d ≡ true)
        × (int_le l.config.ban_failures (counted l d + 1) ≡ true)
  unfolding record_failure
  failure_raises l d x h = ground arith

  -- Recording an outcome raises nothing but the suspicion of a ban, and that only for a failure of
  -- a domain whose rate was at the floor already, when with this failure the failures counted at
  -- the floor have reached the configured number.
  pub record_adaptive_raises :
      (l : AdaptiveRateLimiter F) (d : String) (o : Outcome) (x : Error)
      → (record_adaptive l d o).0 ≡ raise x
      → (x ≡ ban_suspected)
        × IsFailure o
        × (at_floor l d ≡ true)
        × (int_le l.config.ban_failures (counted l d + 1) ≡ true)
  unfolding record_adaptive
  record_adaptive_raises l d rate_limited x h =
      let (a, b, c) = failure_raises l d x h in (a, tt, b, c)
  record_adaptive_raises l d transport_error x h =
      let (a, b, c) = failure_raises l d x h in (a, tt, b, c)
  record_adaptive_raises l d succeeded x h = absurd (ground arith)
  record_adaptive_raises l d origin_error x h = absurd (ground arith)

  counted-failure :
      (l : AdaptiveRateLimiter F) (d : String)
      → at_floor l d ≡ true
      → counted (record_failure l d).1 d ≡ counted l d + 1
  unfolding record_failure
  counted-failure l d h =
      ground (arith, h, get_or-put d d (counted l d + 1) 0 l.fail_at_min, eq_refl d)

  -- a failure at the floor stays there
  floor-failure :
      (l : AdaptiveRateLimiter F) (d : String)
      → IsWithin l
      → at_floor l d ≡ true
      → at_floor (record_failure l d).1 d ≡ true
  floor-failure l d v h =
      subst (λ c. F.le_f (rate (record_failure l d).1 d) c.min_rate ≡ true)
        (sym (config-failure l d))
        (subst (λ r. F.le_f r l.config.min_rate ≡ true)
          (sym (rate-record_failure l d d ∙ ground (arith, eq_refl d)))
          (F.le_trans _ _ _ (lowered-le l d v) h))

  no_raise :
      (l : AdaptiveRateLimiter F) (d : String)
      → int_le l.config.ban_failures (counted l d + 1) ≡ false
      → (record_failure l d).0 ≡ ok tt
  unfolding record_failure
  no_raise l d h = ground arith

  does_raise :
      (l : AdaptiveRateLimiter F) (d : String)
      → at_floor l d ≡ true
      → int_le l.config.ban_failures (counted l d + 1) ≡ true
      → (record_failure l d).0 ≡ raise ban_suspected
  unfolding record_failure
  does_raise l d h k = ground arith

  -- `n` failures in a row, up to the first that raises
  unfoldable pub fail_times :
      ℕ → AdaptiveRateLimiter F → String → Except (Unit {0}) × AdaptiveRateLimiter F
  fail_times zero l d = (ok tt, l)
  fail_times (suc n) l d =
      let (r, l') = record_failure l d in
      elim r [ ok u ↦ fail_times n l' d | raise x ↦ (raise x, l') ]

  due :
      (k b : ℕ) (l : AdaptiveRateLimiter F) (d : String)
      → l.config.ban_failures ≡ pos b
      → counted l d ≡ k
      → b < k + 2
      → int_le l.config.ban_failures (counted l d + 1) ≡ true
  due k b l d e c h = ap (λ z. int_le z (counted l d + 1)) e ∙ ground (arith, c)

  early :
      (k b : ℕ) (l : AdaptiveRateLimiter F) (d : String)
      → l.config.ban_failures ≡ pos b
      → counted l d ≡ k
      → k + 1 < b
      → int_le l.config.ban_failures (counted l d + 1) ≡ false
  early k b l d e c h = ap (λ z. int_le z (counted l d + 1)) e ∙ ground (arith, c)

  fail_times_from :
      (n k b : ℕ) (l : AdaptiveRateLimiter F) (d : String)
      → IsWithin l
      → at_floor l d ≡ true
      → l.config.ban_failures ≡ pos b
      → counted l d ≡ k
      → k < b
      → (fail_times n l d).0 ≡ (if ltb (k + n) b then ok tt else raise ban_suspected)
  unfolding fail_times
  fail_times_from zero k b l d v h e c room = ground arith
  fail_times_from (suc n) k b l d v h e c room = elim (Bool-cases (ltb (k + 1) b)) [
    | inl more ↦ ground (
      arith,
      no_raise l d (early k b l d e c (ltb→lt (k + 1) b more)),
      fail_times_from n (k + 1) b (record_failure l d).1 d (failure-IsWithin l d v)
          (floor-failure l d v h) (ap (λ c. c.ban_failures) (config-failure l d) ∙ e)
          (counted-failure l d h ∙ ap (λ (t : ℕ). t + 1) c) (ltb→lt (k + 1) b more),
    )
    | inr enough ↦
        ground (
          arith,
          does_raise l d h (due k b l d e c (omega (arith, ltb_no (k + 1) b enough))),
          enough,
        )
  ]

  -- From a domain at the floor with no failures counted, under a configuration that suspects a ban
  -- after `b` failures, `n` failures in a row raise the suspicion exactly when `n` is at least `b`.
  pub fail_times_lem :
      (n b : ℕ) (l : AdaptiveRateLimiter F) (d : String)
      → IsWithin l
      → at_floor l d ≡ true
      → l.config.ban_failures ≡ pos b
      → counted l d ≡ 0
      → 0 < b
      → (fail_times n l d).0 ≡ (if ltb n b then ok tt else raise ban_suspected)
  fail_times_lem n b l d v h e c room =
      let sum : 0 + n ≡ n = omega arith in
      fail_times_from n 0 b l d v h e c room
      ∙ ap (λ t. if ltb t b then ok tt else raise ban_suspected) sum

  -- A success, and a failure above the floor, start the count over.
  pub counted_reset :
      (l : AdaptiveRateLimiter F) (d : String)
      → at_floor l d ≡ false
      → (counted (record_success l d) d ≡ 0) × (counted (record_failure l d).1 d ≡ 0)
  unfolding record_success record_failure
  counted_reset l d h = (
    ground (arith, get_or-put d d 0 0 l.fail_at_min, eq_refl d),
    ground (arith, h, get_or-put d d 0 0 l.fail_at_min, eq_refl d),
  )
