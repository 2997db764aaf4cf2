-- ===== src/Proxies/RateLimit/Spacing.antt =====
-- The slots of src/bulk_http/proxies/ratelimit.py over a sequence of calls.
use bulk_http.Prelude.{
  ◌≡◌, refl, sym, subst, ◌⊎◌, inl, inr, String, true, false, none, some, List, [], ◌∷◌, string_keys,
  ◌==◌, arith, Bool-cases, All, if◌then◌else◌,
}
use text.Mathlib.TextEquality.{eq_iff}
use bulk_http.Except.{ok}
use bulk_http.Floats.{Floats, lt_f, max_f}
use bulk_http.Floats.Order.{le_max_left, le_max_right, max_either}
use bulk_http.Dict.{get, get_or}
use bulk_http.Dict.Laws.{get_or-put, get-put_ne, eq_refl}
use bulk_http.Proxies.RateLimit.{DomainRateLimiter, Slot, acquire, new_limiter}

sleeps_exactly :
    (F : Floats) (start now : F.Float)
    → (if lt_f F F.zero_f (F.sub_f start now) then some (F.sub_f start now) else none)
      ≡ (if F.le_f start now then none else some (F.sub_f start now))
sleeps_exactly F start now = ground (arith, F.sub_pos start now)

module _ {F : Floats} where
  -- The slots of a sequence of calls, at the times that the clock shows, with their domains.
  unfoldable pub acquire_all :
      DomainRateLimiter F → List (String × F.Float) → List (String × Slot F)
  acquire_all l [] = []
  acquire_all l ((domain, now) ∷ calls) =
      let (slot, l') = acquire l domain now in (domain, slot) ∷ acquire_all l' calls

  abbrev pub Later : F.Float → String → String × Slot F → Type 0
  Later t domain (other, slot) = (domain == other) ≡ true → F.le_f t slot.start ≡ true

  -- Each slot begins at least `interval` after every earlier slot of the same domain.
  abbrev pub IsSpaced : F.Float → List (String × Slot F) → Type 0
  IsSpaced interval [] = Unit
  IsSpaced interval ((domain, slot) ∷ rest) =
      All (Later (F.add_f slot.start interval) domain) rest × IsSpaced interval rest

  reserved : DomainRateLimiter F → String → F.Float
  reserved l domain = get_or domain F.zero_f l.next

  acquire-start :
      (l : DomainRateLimiter F) (domain : String) (now : F.Float)
      → (acquire l domain now).0.start ≡ max_f F now (reserved l domain)
  unfolding acquire reserved
  acquire-start l domain now = refl

  reserved-acquire :
      (l : DomainRateLimiter F) (domain other : String) (now : F.Float)
      → reserved (acquire l domain now).1 other ≡ (
          if domain == other
          then F.add_f (acquire l domain now).0.start l.interval
          else reserved l other)
  unfolding acquire reserved
  reserved-acquire l domain other now = get_or-put domain other _ F.zero_f l.next

  -- a call moves no reservation back
  reserved_grows :
      (l : DomainRateLimiter F) (domain other : String) (now t : F.Float)
      → F.le_f F.zero_f l.interval ≡ true
      → F.le_f t (reserved l other) ≡ true
      → F.le_f t (reserved (acquire l domain now).1 other) ≡ true
  reserved_grows l domain other now t pos h = elim (Bool-cases (domain == other)) [
    | inl same ↦
        let start : F.Float = max_f F now (reserved l domain) in
        let e : domain ≡ other = (eq_iff domain other).0 same in
        let h' : F.le_f t (reserved l domain) ≡ true =
          subst (λ d. F.le_f t (reserved l d) ≡ true) (sym e) h in
        let up : F.le_f t start ≡ true =
          F.le_trans t _ start h' (le_max_right F now (reserved l domain)) in
        rw (reserved-acquire, same, acquire-start)
          (F.le_trans t start _ up (F.le-add start l.interval pos))
    | inr other_domain ↦ rw (reserved-acquire, other_domain) h
  ]

  interval-acquire :
      (l : DomainRateLimiter F) (domain : String) (now : F.Float)
      → (acquire l domain now).1.interval ≡ l.interval
  unfolding acquire
  interval-acquire l domain now = refl

  -- what is reserved bounds every later slot of the domain from below
  Later-acquire_all :
      (l : DomainRateLimiter F) (calls : List (String × F.Float)) (domain : String) (t : F.Float)
      → F.le_f F.zero_f l.interval ≡ true
      → F.le_f t (reserved l domain) ≡ true
      → All (Later t domain) (acquire_all l calls)
  unfolding acquire_all
  Later-acquire_all l [] domain t pos h = tt
  Later-acquire_all l ((other, now) ∷ calls) domain t pos h = (
    λ same. rw acquire-start (
        F.le_trans t _ _
          (subst (λ d. F.le_f t (reserved l d) ≡ true) ((eq_iff domain other).0 same) h)
          (le_max_right F now (reserved l other))),
    Later-acquire_all (acquire l other now).1 calls domain t (rw interval-acquire pos)
        (reserved_grows l other domain now t pos h),
  )

  acquire_all-IsSpaced :
      (l : DomainRateLimiter F) (calls : List (String × F.Float))
      → F.le_f F.zero_f l.interval ≡ true
      → IsSpaced l.interval (acquire_all l calls)
  unfolding acquire_all
  acquire_all-IsSpaced l [] pos = tt
  acquire_all-IsSpaced l ((domain, now) ∷ calls) pos =
      let l' = (acquire l domain now).1 in
      (
        Later-acquire_all l' calls domain _ (rw interval-acquire pos)
            (rw (reserved-acquire l domain domain now, eq_refl domain) (F.le_refl _)),
        subst (λ i. IsSpaced i (acquire_all l' calls)) (interval-acquire l domain now)
            (acquire_all-IsSpaced l' calls (rw interval-acquire pos)),
      )

  new_limiter-interval :
      (rate : F.Float) (l : DomainRateLimiter F)
      → new_limiter F rate ≡ ok l
      → F.le_f F.zero_f l.interval ≡ true
  unfolding new_limiter
  new_limiter-interval rate l made = elim (Bool-cases (F.le_f rate F.zero_f)) [
    | inl bad ↦ absurd (ground (arith, bad))
    | inr fine ↦ ground (arith, fine, F.div_nonneg F.one_f rate F.one_nonneg fine)
  ]

  -- A limiter that was made for a rate, whatever calls it serves in whatever order and at whatever
  -- clock readings, hands out slots of which two for the same domain are at least its interval
  -- apart: the later one begins no earlier than the start of the earlier one plus the interval.
  pub new_limiter-IsSpaced :
      (rate : F.Float) (l : DomainRateLimiter F) (calls : List (String × F.Float))
      → new_limiter F rate ≡ ok l
      → IsSpaced l.interval (acquire_all l calls)
  new_limiter-IsSpaced rate l calls made =
      acquire_all-IsSpaced l calls (new_limiter-interval rate l made)

  -- A slot never begins before the call, and no sooner than what was reserved for the domain; it
  -- begins at one of the two. The caller sleeps exactly when the slot is after the call, and then
  -- for the difference. Reservations of other domains stay.
  pub acquire_lem :
      (l : DomainRateLimiter F) (domain : String) (now : F.Float)
      → (F.le_f now (acquire l domain now).0.start ≡ true)
        × (F.le_f (get_or domain F.zero_f l.next) (acquire l domain now).0.start ≡ true)
        × (((acquire l domain now).0.start ≡ now)
            ⊎ ((acquire l domain now).0.start ≡ get_or domain F.zero_f l.next))
        × ((acquire l domain now).0.sleeps ≡ (
            if F.le_f (acquire l domain now).0.start now
            then none
            else some (F.sub_f (acquire l domain now).0.start now)))
        × ((other : String)
            → (domain == other) ≡ false
            → get other (acquire l domain now).1.next ≡ get other l.next)
  unfolding acquire
  acquire_lem l domain now =
      let earliest = get_or domain F.zero_f l.next in
      (
        le_max_left F now earliest,
        le_max_right F now earliest,
        max_either F now earliest,
        sleeps_exactly F _ now,
        λ other h. get-put_ne domain other _ l.next h,
      )
