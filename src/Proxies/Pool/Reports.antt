-- ===== src/Proxies/Pool/Reports.antt =====
-- Reports to the pool of src/bulk_http/proxies/pool.py, and sequences of its calls.
use bulk_http.Prelude.{
  ℕ, zero, suc, ◌<◌, ◌≡◌, refl, inl, inr, String, true, false, List, [], ◌∷◌, get_elem?, Option,
  none, some, string_keys, ◌==◌, arith, Bool-cases, Option-cases, is_some,
}
use bulk_http.Except.{Except, ok, ◌>>=◌}
use bulk_http.Floats.{Floats}
use bulk_http.Dict.{Dict, get, put}
use bulk_http.Dict.Laws.{get-put, get-put_ne, get-put_self, get-nil}
use bulk_http.Proxies.Health.{Outcome, ProxyHealth}
use bulk_http.Proxies.Health.Window.{record_outcome-Records, IsBounded}
use bulk_http.Proxies.Pool.{ProxyPool, new_pool, fresh_health, select, report}
use bulk_http.Proxies.Pool.Selection.{IsValid, free, moved, moved-IsValid, select-Selected}

-- The health of a pool is sound when every breaker has room for a sample and a bounded window.
abbrev pub IsSound : {F : Floats} → ProxyHealth F → Type 0
IsSound h = (0 < h.maxlen) × IsBounded h

module _ {F : Floats} where
  pub record Inv (p : ProxyPool F) : Type 0 where
    pub valid : IsValid p
    pub sound : (q : String) (h : ProxyHealth F) → get q p.health ≡ some h → IsSound h

  fresh_health-keeps :
      (new : ProxyHealth F) (ps : List String) (d : Dict String (ProxyHealth F)) (q : String)
      → is_some (get q d) ≡ true
      → is_some (get q (fresh_health new ps d)) ≡ true
  unfolding fresh_health
  fresh_health-keeps new [] d q h = h
  fresh_health-keeps new (p ∷ ps) d q h =
      fresh_health-keeps new ps (put p new d) q (ground (arith, get-put p q new d))

  fresh_health-known :
      (new : ProxyHealth F) (ps : List String) (d : Dict String (ProxyHealth F)) (i : ℕ)
      (q : String)
      → get_elem? ps i ≡ some q
      → is_some (get q (fresh_health new ps d)) ≡ true
  unfolding fresh_health
  fresh_health-known new [] d i q e = absurd (ground arith)
  fresh_health-known new (p ∷ ps) d zero q e =
      fresh_health-keeps new ps (put p new d) q (ground (arith, get-put_self p new d))
  fresh_health-known new (p ∷ ps) d (suc i) q e = fresh_health-known new ps (put p new d) i q e

  fresh_health-IsSound :
      (new : ProxyHealth F) (ps : List String) (d : Dict String (ProxyHealth F))
      → IsSound new
      → ((q : String) (h : ProxyHealth F) → get q d ≡ some h → IsSound h)
      → (q : String) (h : ProxyHealth F) → get q (fresh_health new ps d) ≡ some h
      → IsSound h
  unfolding fresh_health
  fresh_health-IsSound new [] d ok_new ok_d q h e = ok_d q h e
  fresh_health-IsSound new (p ∷ ps) d ok_new ok_d q h e =
      fresh_health-IsSound new ps (put p new d) ok_new
        (λ j g e'. elim (Bool-cases (p == j)) [
          | inl same ↦ ground (arith, get-put p j new d, same)
          | inr other ↦ ok_d j g (ground (arith, get-put p j new d, other))
        ])
        q h e

  pub new_pool-Inv :
      (proxies : List String) (window : ℕ) (threshold : F.Float) (min_samples : ℕ)
      (cooldown backoff : F.Float)
      → 0 < window
      → Inv (new_pool F proxies window threshold min_samples cooldown backoff)
  unfolding new_pool
  new_pool-Inv proxies window threshold min_samples cooldown backoff room = record {
    valid = record { in_range = λ h. h; known = λ i q e. fresh_health-known _ proxies [] i q e };
    sound = λ q h e.
        fresh_health-IsSound _ proxies [] (room, omega arith) (λ j g e'. absurd (get-nil j g e')) q
          h e;
  }

  put-known :
      (p : ProxyPool F) (proxy q : String) (h : ProxyHealth F)
      → is_some (get q p.health) ≡ true
      → is_some (get q (put proxy h p.health)) ≡ true
  put-known p proxy q h known = ground (arith, get-put proxy q h p.health)

  put-Inv :
      (p : ProxyPool F) (proxy : String) (h : ProxyHealth F)
      → Inv p
      → IsSound h
      → Inv (record p { health = put proxy h p.health })
  put-Inv p proxy h v s = record {
    valid = record {
      in_range = v.valid.in_range;
      known = λ i q e. put-known p proxy q h (v.valid.known i q e);
    };
    sound = λ q g e. elim (Bool-cases (proxy == q)) [
      | inl same ↦ ground (arith, get-put proxy q h p.health, same)
      | inr other ↦ v.sound q g (ground (arith, get-put proxy q h p.health, other))
    ];
  }

  -- A report to a pool in good order raises nothing and leaves it in good order. The proxies and
  -- the cursor stay, and no other proxy becomes available or unavailable by it.
  pub report-Inv :
      (p : ProxyPool F) (proxy : String) (o : Outcome) (now : F.Float)
      → Inv p
      → (p' : ProxyPool F) × (report p proxy o now ≡ ok p')
        × Inv p'
        × (p'.proxies ≡ p.proxies)
        × (p'.cursor ≡ p.cursor)
        × ((q : String) (t : F.Float) → (proxy == q) ≡ false → free p' t q ≡ free p t q)
  unfolding report free
  report-Inv p proxy o now v = elim (Option-cases (get proxy p.health)) [
    | inl missing ↦ (p, ground (arith, missing), v, refl, refl, λ q t other. refl)
    | inr (h, found) ↦
        let s = v.sound proxy h found in
        let (h', recorded, bounded, same) = record_outcome-Records h o now s.0 s.1 in
        (
          record p { health = put proxy h' p.health },
          ground (arith, found, recorded),
          put-Inv p proxy h' v (omega arith, bounded),
          refl,
          refl,
          λ q t other. ground (arith, get-put_ne proxy q h' p.health other),
        )
  ]

  moved-Inv : (p : ProxyPool F) (k : ℕ) → Inv p → Inv (moved p k)
  moved-Inv p k v = record { valid = moved-IsValid p k v.valid; sound = v.sound }

  select-Inv :
      (p : ProxyPool F) (now : F.Float)
      → Inv p
      → (r : Option String) × (p' : ProxyPool F) × (select p now ≡ ok (r, p')) × Inv p'
  select-Inv p now v = elim (select-Selected p now v.valid) [
    | inl (k, proxy, _, _, _, _, e) ↦ (some proxy, moved p (suc k), e, moved-Inv p (suc k) v)
    | inr (_, e) ↦ (none, p, e, v)
  ]

-- What the processor asks of a pool.
pub data Call (F : Floats) : Type 0 where
  selects : F.Float → Call F
  reports : String → Outcome → F.Float → Call F

module _ {F : Floats} where
  unfoldable pub run_calls : ProxyPool F → List (Call F) → Except (ProxyPool F)
  run_calls p [] = ok p
  run_calls p (selects now ∷ cs) = do (r, p') ← select p now; run_calls p' cs
  run_calls p (reports proxy o now ∷ cs) = do p' ← report p proxy o now; run_calls p' cs

  run_calls-Inv :
      (p : ProxyPool F) (cs : List (Call F))
      → Inv p
      → (p' : ProxyPool F) × (run_calls p cs ≡ ok p') × Inv p'
  unfolding run_calls
  run_calls-Inv p [] v = (p, refl, v)
  run_calls-Inv p (selects now ∷ cs) v =
      let (r, q, e, w) = select-Inv p now v in
      let (p', runs, keeps) = run_calls-Inv q cs w in (p', ground (arith, e, runs), keeps)
  run_calls-Inv p (reports proxy o now ∷ cs) v =
      let (q, e, w, _, _, _) = report-Inv p proxy o now v in
      let (p', runs, keeps) = run_calls-Inv q cs w in (p', ground (arith, e, runs), keeps)

  -- A new pool whose breakers have a window of at least one sample serves every sequence of
  -- selections and reports, in any order and at any times, without raising; in the end its cursor
  -- is a position of the list, every proxy has its breaker and every window is within bounds.
  pub run_calls-new_pool :
      (proxies : List String) (window : ℕ) (threshold : F.Float) (min_samples : ℕ)
      (cooldown backoff : F.Float) (cs : List (Call F))
      → 0 < window
      → (p : ProxyPool F) × (run_calls
            (new_pool F proxies window threshold min_samples cooldown backoff)
            cs
          ≡ ok p)
        × Inv p
  run_calls-new_pool proxies window threshold min_samples cooldown backoff cs room =
      run_calls-Inv _ cs (new_pool-Inv proxies window threshold min_samples cooldown backoff room)
