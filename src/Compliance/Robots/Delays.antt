-- ===== src/Compliance/Robots/Delays.antt =====
-- The crawl delay of src/bulk_http/compliance/robots_gate.py, for calls one after the other and for
-- calls that overlap.
use bulk_http.Prelude.{String, true, false, ◌≡◌, refl, ap, subst, ◌∙◌, arith, string_keys}
use bulk_http.Floats.{Floats}
use bulk_http.Dict.{get_or}
use bulk_http.Dict.Laws.{get_or-put}
use bulk_http.Compliance.Robots.{Robots, AsyncRobotsGate, Throttle, plan_throttle, end_throttle}

module _ {F : Floats} (R : Robots F) (origin : String) where
  -- the time up to which the origin is held back
  abbrev pub earliest : AsyncRobotsGate R → F.Float
  earliest g = get_or origin F.zero_f g.next_allowed

  earliest-end :
      (g : AsyncRobotsGate R) (t : Throttle F)
      → t.at_origin ≡ origin
      → earliest (end_throttle R g t) ≡ F.add_f t.start t.delay
  unfolding end_throttle
  earliest-end g t e = ground (
    arith,
    get_or-put t.at_origin origin (F.add_f t.start t.delay) F.zero_f g.next_allowed,
    string_keys.same_iff t.at_origin origin,
    e,
  )

  start-le :
      (g : AsyncRobotsGate R) (delay now : F.Float)
      → F.le_f (earliest g) (plan_throttle R g origin delay now).start ≡ true
  unfolding plan_throttle
  start-le g delay now = ground (arith, F.sub_pos (earliest g) now, F.le_refl (earliest g))

  held :
      (g : AsyncRobotsGate R) (delay now : F.Float)
      → F.le_f (earliest g) now ≡ false
      → (plan_throttle R g origin delay now).start ≡ earliest g
  unfolding plan_throttle
  held g delay now h = ground (arith, F.sub_pos (earliest g) now, h)

  -- A call of `throttle` that begins after another one of its origin has ended is released no
  -- sooner than the crawl delay after that one was.
  pub plan_throttle-end_throttle :
      (g : AsyncRobotsGate R) (delay now now' : F.Float)
      → F.le_f
          (F.add_f (plan_throttle R g origin delay now).start delay)
          (plan_throttle R
            (end_throttle R g (plan_throttle R g origin delay now))
            origin
            delay
            now').start
        ≡ true
  unfolding plan_throttle
  plan_throttle-end_throttle g delay now now' =
      let t = plan_throttle R g origin delay now in
      subst (λ e. F.le_f e (plan_throttle R (end_throttle R g t) origin delay now').start ≡ true)
        (earliest-end g t refl) (start-le (end_throttle R g t) delay now')

  -- Two calls that both begin before either has ended, while the origin is held back, are released
  -- at one moment, with no delay between them, and together they hold the origin back only once.
  pub overlap_lem :
      (g : AsyncRobotsGate R) (delay now now' : F.Float)
      → F.le_f (earliest g) now ≡ false
      → F.le_f (earliest g) now' ≡ false
      → ((plan_throttle R g origin delay now).start ≡ earliest g)
        × ((plan_throttle R g origin delay now').start ≡ earliest g)
        × (earliest (
              end_throttle R
                (end_throttle R g (plan_throttle R g origin delay now))
                (plan_throttle R g origin delay now'))
            ≡ F.add_f (earliest g) delay)
  unfolding plan_throttle
  overlap_lem g delay now now' h h' =
      let a = held g delay now h in
      let b = held g delay now' h' in
      (
        a,
        b,
        earliest-end (end_throttle R g (plan_throttle R g origin delay now))
              (plan_throttle R g origin delay now') refl
            ∙ ap (λ s. F.add_f s delay) b,
      )
