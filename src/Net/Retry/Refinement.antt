-- ===== src/Net/Retry/Refinement.antt =====
-- The runs of the retry loop of src/bulk_http/net/retry.py against the policy of Trace.
use bulk_http.Prelude.{
  ℕ, zero, suc, ◌+◌, ◌<◌, ◌≡◌, ◌⊎◌, ap, ◌∙◌, sym, subst, subst, refl, true, false, Option, none,
  some, List, [], ◌∷◌, ◌++◌, arith, inl, inr, Bool-cases, Option-cases, nat_beq, append_assoc,
  append-nil,
}
use bulk_http.Prelude.Int.{pos}
use bulk_http.Except.{Except, ok}
use bulk_http.Floats.{Floats}
use bulk_http.Config.{ResolvedRequest}
use bulk_http.Net.Transport.{RawResponse, Env}
use bulk_http.Net.Retry.{
  Verdict, finish, again, is_transient, is_replayable, is_int, backoff, reaches, pause, judge,
  attempt_once, attempts, perform_with_retries, rounds_after, deadline_for,
}
use bulk_http.Net.Retry.Trace.{
  Event, performed, looked, drew, slept, traced, InTime, look, settled, unsafe, used_up, Ends,
  stopped, out_of_time, Permitted, last, retry, FollowsPolicy, unbounded, bounded, Runs,
}

none_left : (k left m : ℕ) → k + left ≡ m → nat_beq k m ≡ true → left ≡ 0
none_left k left m sum same = ground arith

some_left : (k left m : ℕ) → k + left ≡ m → nat_beq k m ≡ false → 0 < left
some_left k left m sum more = ground arith

look-append :
    {F : Floats} (deadline : Option F.Float) (now : F.Float) (es fs : List (Event F))
    → look deadline now es ++ fs ≡ look deadline now (es ++ fs)
look-append none now es fs = refl
look-append (some d) now es fs = refl

module _ {F : Floats} (E : Env F) (base cap : F.Float) (q : ResolvedRequest F) where
  -- What one round may come to, after a response.
  abbrev Round :
      Option F.Float
      → ℕ
      → ℕ
      → RawResponse F
      → List (Event F)
      → Verdict F × (traced E).World
      → Type 0
  Round deadline k left r es out =
      ((w : E.World) × (tail : List (Event F)) × Ends q base cap deadline k left r tail
        × (out ≡ (finish r, (w, es ++ tail))))
      ⊎ ((w : E.World) × (j : F.Float) × (now : F.Float) × (0 < left)
          × (is_transient r ≡ true)
          × (is_replayable q ≡ true)
          × InTime F deadline now (backoff F base cap k j)
          × (out ≡ (
            again r,
            (w, es ++ drew j ∷ look deadline now (slept (backoff F base cap k j) ∷ [])),
          )))

  pause-Round :
      (deadline : Option F.Float) (k left : ℕ) (j : F.Float) (r : RawResponse F) (w : E.World)
      (es : List (Event F))
      → 0 < left
      → is_transient r ≡ true
      → is_replayable q ≡ true
      → Round deadline k left r es
          (pause (traced E) base cap q deadline (backoff F base cap k j) r (w, es ++ drew j ∷ []))
  unfolding pause
  pause-Round none k left j r w es l t p =
      let delay = backoff F base cap k j in
      inr (
        E.sleep delay w,
        j,
        j,
        l,
        t,
        p,
        tt,
        ap (λ log. (again r, (E.sleep delay w, log)))
            (append_assoc es (drew j ∷ []) (slept delay ∷ [])),
      )
  pause-Round (some d) k left j r w es l t p =
      let now = (E.clock w).0 in
      let delay = backoff F base cap k j in
      let two = append_assoc es (drew j ∷ []) (looked now ∷ []) in
      elim (Bool-cases (reaches F d now delay)) [
        | inl late ↦ rw late (
            inl (
              (E.clock w).1,
              drew j ∷ looked now ∷ [],
              out_of_time d j now t refl late,
              ap (λ log. (finish r, ((E.clock w).1, log))) two,
            ))
        | inr early ↦
            let w' = E.sleep delay (E.clock w).1 in
            rw early (
              inr (
                w',
                j,
                now,
                l,
                t,
                p,
                early,
                ap (λ log. (again r, (w', log ++ slept delay ∷ []))) two
                    ∙ ap (λ log. (again r, (w', log)))
                        (append_assoc es (drew j ∷ looked now ∷ []) (slept delay ∷ [])),
              ))
      ]

  judge-pause :
      (deadline : Option F.Float) (k : ℕ) (r : RawResponse F) (s : (traced E).World)
      → is_transient r ≡ true
      → is_replayable q ≡ true
      → is_int k q.retries ≡ false
      → judge (traced E) base cap q deadline k r s
        ≡ pause
            (traced E)
            base
            cap
            q
            deadline
            (backoff F base cap k ((traced E).jitter s).0)
            r
            ((traced E).jitter s).1
  unfolding judge
  judge-pause deadline k r s t p more = rw (t, p, more)

  stop_log :
      (r : RawResponse F) (w : E.World) (es : List (Event F))
      → Path (Verdict F × (traced E).World) (finish r, (w, es)) (finish r, (w, es ++ []))
  stop_log r w es = ap (λ log. (finish r, (w, log))) (sym (append-nil es))

  judge-Round :
      (deadline : Option F.Float) (k left m : ℕ) (r : RawResponse F) (w : E.World)
      (es : List (Event F))
      → q.retries ≡ pos m
      → k + left ≡ m
      → Round deadline k left r es (judge (traced E) base cap q deadline k r (w, es))
  unfolding judge
  judge-Round deadline k left m r w es e sum = elim (Bool-cases (is_transient r)) [
    | inl t ↦ elim (Bool-cases (is_replayable q)) [
      | inl p ↦ elim (Bool-cases (is_int k q.retries)) [
        | inl same ↦
            rw (t, p, same)
              (inl (
                w,
                [],
                stopped (used_up (none_left k left m sum (sym (ap (is_int k) e) ∙ same))),
                stop_log r w es,
              ))
        | inr more ↦
            subst (Round deadline k left r es) (sym (judge-pause deadline k r (w, es) t p more)) (
              pause-Round deadline k left _ r _ es
                (some_left k left m sum (sym (ap (is_int k) e) ∙ more)) t p)
      ]
      | inr p ↦ rw (t, p) (inl (w, [], stopped (unsafe p), stop_log r w es))
    ]
    | inr t ↦ rw t (inl (w, [], stopped (settled t), stop_log r w es))
  ]

  attempt_once-Round :
      (deadline : Option F.Float) (k left m : ℕ) (w : E.World) (es : List (Event F))
      → q.retries ≡ pos m
      → k + left ≡ m
      → Round deadline k left
          (E.perform q w).0
          (es ++ performed q (E.perform q w).0 ∷ [])
          (attempt_once (traced E) base cap q deadline k (w, es))
  unfolding attempt_once
  attempt_once-Round deadline k left m w es e sum =
      judge-Round deadline k left m (E.perform q w).0 (E.perform q w).1 _ e sum

  abbrev Follows :
      Option F.Float → ℕ → ℕ → List (Event F) → Except (RawResponse F) × (traced E).World → Type 0
  Follows deadline k left es out =
      (r : RawResponse F) × (w : E.World) × (new : List (Event F)) × (out ≡ (ok r, (w, es ++ new)))
      × Permitted q base cap deadline k left new r

  attempts-Follows :
      (deadline : Option F.Float) (m left k : ℕ) (given : Option (RawResponse F)) (w : E.World)
      (es : List (Event F))
      → q.retries ≡ pos m
      → k + left ≡ m
      → Follows deadline k left es
          (attempts (traced E) base cap q deadline (suc left) k given (w, es))
  unfolding attempts
  attempts-Follows deadline m zero k given w es e sum =
      let r : RawResponse F = (E.perform q w).0 in
      elim (attempt_once-Round deadline k zero m w es e sum) [
        | inl (w₂, tail, why, out) ↦ (
          r,
          w₂,
          performed q r ∷ tail,
          ground (arith, out, append_assoc es (performed q r ∷ []) tail),
          last why,
        )
        | inr (w₂, j, now, l, t, p, time, out) ↦ absurd (omega arith)
      ]
  attempts-Follows deadline m (suc left) k given w es e sum =
      let r : RawResponse F = (E.perform q w).0 in
      elim (attempt_once-Round deadline k (suc left) m w es e sum) [
        | inl (w₂, tail, why, out) ↦ (
          r,
          w₂,
          performed q r ∷ tail,
          ground (arith, out, append_assoc es (performed q r ∷ []) tail),
          last why,
        )
        | inr (w₂, j, now, l, t, p, time, out) ↦
            let before = look deadline now (slept (backoff F base cap k j) ∷ []) in
            let log : List (Event F) = (es ++ performed q r ∷ []) ++ drew j ∷ before in
            let (r', w', new, runs, ok_trace) =
              attempts-Follows deadline m left (suc k) (some r) w₂ log e (omega arith) in
            (
              r',
              w',
              performed q r ∷ drew j ∷ look deadline now (slept (backoff F base cap k j) ∷ new),
              ground (
                arith,
                out,
                runs,
                append_assoc (es ++ performed q r ∷ []) (drew j ∷ before) new,
                append_assoc es (performed q r ∷ []) (drew j ∷ before ++ new),
                look-append deadline now (slept (backoff F base cap k j) ∷ []) new,
              ),
              retry r j now t p time ok_trace,
            )
      ]

  pub perform_with_retries-Permitted :
      (m : ℕ) (w : E.World) (es : List (Event F))
      → q.retries ≡ pos m
      → Runs E base cap q w es (FollowsPolicy q base cap m)
  unfolding perform_with_retries deadline_for
  perform_with_retries-Permitted m w es e = elim (Option-cases q.total_timeout) [
    | inl off ↦
        let (r, w', new, runs, follows) = attempts-Follows none m m 0 none w es e (omega arith) in
        (r, w', new, ground (arith, off, runs, ap rounds_after e), unbounded off follows)
    | inr (t, on) ↦
        let start = (E.clock w).0 in
        let (r, w', new, runs, follows) =
          attempts-Follows (some (F.add_f start t)) m m 0 none (E.clock w).1
            (es ++ looked start ∷ []) e (omega arith) in
        (
          r,
          w',
          looked start ∷ new,
          ground (arith, on, runs, ap rounds_after e, append_assoc es (looked start ∷ []) new),
          bounded t start on follows,
        )
  ]
