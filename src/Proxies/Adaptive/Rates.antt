-- ===== src/Proxies/Adaptive/Rates.antt =====
-- The rates of src/bulk_http/proxies/adaptive.py: their bounds and their moves.
use bulk_http.Prelude.{
  ◌+◌, ◌≡◌, refl, sym, subst, ◌∙◌, inl, inr, String, true, false, string_keys, ◌==◌, arith,
  Bool-cases, if◌then◌else◌,
}
use bulk_http.Prelude.Int.{int_le}
use bulk_http.Except.{ok}
use bulk_http.Floats.{Floats, max_f, min_f}
use bulk_http.Floats.Order.{le_max_left, max_le, min_le_left, le_min, le_of_not}
use bulk_http.Dict.{get, get_or}
use bulk_http.Dict.Laws.{get_or-put, eq_refl}
use bulk_http.Proxies.AdaptiveConfig.{AdaptiveRateConfig, check_adaptive}
use bulk_http.Proxies.Health.{Outcome, succeeded, transport_error, rate_limited, origin_error}
use bulk_http.Proxies.Adaptive.{
  AdaptiveRateLimiter, new_adaptive, rate, record_failure, record_success, record_adaptive,
}

-- The direction in which an outcome moves the rate of its domain.
abbrev pub Moves : (F : Floats) → Outcome → F.Float → F.Float → Type 0
Moves F rate_limited old new = F.le_f new old ≡ true
Moves F transport_error old new = F.le_f new old ≡ true
Moves F succeeded old new = F.le_f old new ≡ true
Moves F origin_error old new = new ≡ old

module _ {F : Floats} where
  -- What the constructor checks of the configuration.
  pub record IsSane (c : AdaptiveRateConfig F) : Type 0 where
    pub min_pos : F.le_f c.min_rate F.zero_f ≡ false
    pub min_start : F.le_f c.min_rate c.start_rate ≡ true
    pub start_max : F.le_f c.start_rate c.max_rate ≡ true
    pub factor_lt_one : F.le_f F.one_f c.decrease_factor ≡ false
    pub step_pos : F.le_f c.increase_step F.zero_f ≡ false

  check_adaptive-IsSane : (c d : AdaptiveRateConfig F) → check_adaptive c ≡ ok d → IsSane d
  unfolding check_adaptive
  check_adaptive-IsSane c d h = ground arith

  abbrev pub lowered : AdaptiveRateLimiter F → String → F.Float
  lowered l domain = max_f F l.config.min_rate (F.mul_f (rate l domain) l.config.decrease_factor)

  abbrev raised : AdaptiveRateLimiter F → String → F.Float
  raised l domain = min_f F l.config.max_rate (F.add_f (rate l domain) l.config.increase_step)

  pub rate-record_failure :
      (l : AdaptiveRateLimiter F) (domain other : String)
      → rate (record_failure l domain).1 other
        ≡ (if domain == other then lowered l domain else rate l other)
  unfolding record_failure rate
  rate-record_failure l domain other =
      ground (arith, get_or-put domain other (lowered l domain) l.config.start_rate l.rates)

  rate-record_success :
      (l : AdaptiveRateLimiter F) (domain other : String)
      → rate (record_success l domain) other ≡ (
          if int_le l.config.increase_after (get_or domain 0 l.successes + 1)
          then (if domain == other then raised l domain else rate l other)
          else rate l other)
  unfolding record_success rate
  rate-record_success l domain other =
      ground (arith, get_or-put domain other (raised l domain) l.config.start_rate l.rates)

  -- every domain's rate is between the least and the largest
  pub record IsWithin (l : AdaptiveRateLimiter F) : Type 0 where
    pub sane : IsSane l.config
    pub above : (d : String) → F.le_f l.config.min_rate (rate l d) ≡ true
    pub below : (d : String) → F.le_f (rate l d) l.config.max_rate ≡ true

  -- the floor is not above the ceiling
  min-max : (c : AdaptiveRateConfig F) → IsSane c → F.le_f c.min_rate c.max_rate ≡ true
  min-max c s = F.le_trans c.min_rate c.start_rate c.max_rate s.min_start s.start_max

  rate_pos :
      (l : AdaptiveRateLimiter F) (d : String) → IsWithin l → F.le_f F.zero_f (rate l d) ≡ true
  rate_pos l d v =
      F.le_trans _ _ _ (le_of_not F l.config.min_rate F.zero_f v.sane.min_pos) (v.above d)

  -- a cut rate is not above the old one
  pub lowered-le :
      (l : AdaptiveRateLimiter F) (d : String) → IsWithin l → F.le_f (lowered l d) (rate l d) ≡ true
  lowered-le l d v = max_le F _ _ _ (v.above d) (
      F.mul_shrink (rate l d) l.config.decrease_factor (rate_pos l d v)
        (le_of_not F F.one_f l.config.decrease_factor v.sane.factor_lt_one))

  le-raised :
      (l : AdaptiveRateLimiter F) (d : String) → IsWithin l → F.le_f (rate l d) (raised l d) ≡ true
  le-raised l d v = le_min F _ _ _ (v.below d) (
      F.le-add (rate l d) l.config.increase_step
        (le_of_not F l.config.increase_step F.zero_f v.sane.step_pos))

  pub config-failure :
      (l : AdaptiveRateLimiter F) (d : String) → (record_failure l d).1.config ≡ l.config
  unfolding record_failure
  config-failure l d = ground arith

  config-success : (l : AdaptiveRateLimiter F) (d : String) → (record_success l d).config ≡ l.config
  unfolding record_success
  config-success l d = ground arith

  -- after a success a rate is the raised one or the old one
  either_rate :
      (l : AdaptiveRateLimiter F) (d other : String) (P : F.Float → Type 0)
      → P (raised l d)
      → P (rate l other)
      → P (rate (record_success l d) other)
  either_rate l d other P up same =
      elim (Bool-cases (int_le l.config.increase_after (get_or d 0 l.successes + 1))) [
        | inl due ↦ elim (Bool-cases (d == other)) [
          | inl here ↦ subst P (sym (rate-record_success l d other ∙ ground (arith, due, here))) up
          | inr ne ↦ subst P (sym (rate-record_success l d other ∙ ground (arith, due, ne))) same
        ]
        | inr early ↦ subst P (sym (rate-record_success l d other ∙ ground (arith, early))) same
      ]

  pub failure-IsWithin :
      (l : AdaptiveRateLimiter F) (d : String) → IsWithin l → IsWithin (record_failure l d).1
  failure-IsWithin l d v = record {
    sane = subst IsSane (sym (config-failure l d)) v.sane;
    above = λ other. elim (Bool-cases (d == other)) [
      | inl same ↦ rw (config-failure, rate-record_failure, same) (le_max_left F _ _)
      | inr ne ↦ rw (config-failure, rate-record_failure, ne) (v.above other)
    ];
    below = λ other. elim (Bool-cases (d == other)) [
      | inl same ↦
          rw (config-failure, rate-record_failure, same)
            (F.le_trans _ _ _ (lowered-le l d v) (v.below d))
      | inr ne ↦ rw (config-failure, rate-record_failure, ne) (v.below other)
    ];
  }

  success-IsWithin :
      (l : AdaptiveRateLimiter F) (d : String) → IsWithin l → IsWithin (record_success l d)
  success-IsWithin l d v = record {
    sane = subst IsSane (sym (config-success l d)) v.sane;
    above = λ other.
        subst (λ c. F.le_f c.min_rate (rate (record_success l d) other) ≡ true)
          (sym (config-success l d))
          (either_rate l d other (λ r. F.le_f l.config.min_rate r ≡ true)
            (F.le_trans _ _ _ (v.above d) (le-raised l d v)) (v.above other));
    below = λ other.
        subst (λ c. F.le_f (rate (record_success l d) other) c.max_rate ≡ true)
          (sym (config-success l d))
          (either_rate l d other (λ r. F.le_f r l.config.max_rate ≡ true) (min_le_left F _ _)
            (v.below other));
  }

  -- Whatever the outcomes, every domain's rate stays between the least and the largest rate of a
  -- configuration that passed the checks.
  pub record_adaptive-IsWithin :
      (l : AdaptiveRateLimiter F) (d : String) (o : Outcome)
      → IsWithin l
      → IsWithin (record_adaptive l d o).1
  unfolding record_adaptive
  record_adaptive-IsWithin l d rate_limited v = failure-IsWithin l d v
  record_adaptive-IsWithin l d transport_error v = failure-IsWithin l d v
  record_adaptive-IsWithin l d succeeded v = success-IsWithin l d v
  record_adaptive-IsWithin l d origin_error v = v

  failure_down :
      (l : AdaptiveRateLimiter F) (d : String)
      → IsWithin l
      → F.le_f (rate (record_failure l d).1 d) (rate l d) ≡ true
  failure_down l d v = rw (rate-record_failure, eq_refl) (lowered-le l d v)

  success_up :
      (l : AdaptiveRateLimiter F) (d : String)
      → IsWithin l
      → F.le_f (rate l d) (rate (record_success l d) d) ≡ true
  success_up l d v =
      either_rate l d d (λ r. F.le_f (rate l d) r ≡ true) (le-raised l d v) (F.le_refl (rate l d))

  failure_frame :
      (l : AdaptiveRateLimiter F) (d other : String)
      → (d == other) ≡ false
      → rate (record_failure l d).1 other ≡ rate l other
  failure_frame l d other ne = rw (rate-record_failure, ne)

  success_frame :
      (l : AdaptiveRateLimiter F) (d other : String)
      → (d == other) ≡ false
      → rate (record_success l d) other ≡ rate l other
  success_frame l d other ne = ground (arith, rate-record_success l d other, ne)

  -- A failure never raises the rate of its domain, a success never lowers it and an origin error
  -- leaves it; no outcome changes the rate of another domain.
  pub record_adaptive-Moves :
      (l : AdaptiveRateLimiter F) (d : String) (o : Outcome)
      → IsWithin l
      → Moves F o (rate l d) (rate (record_adaptive l d o).1 d)
        × ((other : String)
            → (d == other) ≡ false
            → rate (record_adaptive l d o).1 other ≡ rate l other)
  unfolding record_adaptive
  record_adaptive-Moves l d rate_limited v = (failure_down l d v, failure_frame l d)
  record_adaptive-Moves l d transport_error v = (failure_down l d v, failure_frame l d)
  record_adaptive-Moves l d succeeded v = (success_up l d v, success_frame l d)
  record_adaptive-Moves l d origin_error v = (refl, λ other ne. refl)

  -- A new limiter starts within the bounds, whenever its configuration passes the checks.
  pub new_adaptive-IsWithin :
      (c d : AdaptiveRateConfig F) → check_adaptive c ≡ ok d → IsWithin (new_adaptive d)
  unfolding new_adaptive rate get
  new_adaptive-IsWithin c d h =
      let s = check_adaptive-IsSane c d h in
      record { sane = s; above = λ q. s.min_start; below = λ q. s.start_max }
