-- ===== src/Concurrency/Deferral/Batches.antt =====
-- The passes of `run_batch` in src/bulk_http/concurrency/processor.py, and what they keep.
use bulk_http.Prelude.{
  ℕ, zero, suc, Bool, true, false, some, List, [], ◌∷◌, map, ◌≡◌, refl, ap₂, sym, subst, arith,
  is_some, nat_keys, All, inl, inr, Option-cases, nat_beq_iff,
}
use bulk_http.Prelude.Int.{rounds}
use bulk_http.Except.{Error, ok, raise}
use bulk_http.Effects.{lift}
use bulk_http.Effects.Ensures.{Ensures, Ensures-then, Ensures-map}
use bulk_http.Floats.{Floats}
use bulk_http.Dict.{Dict, get, put}
use bulk_http.Dict.Laws.{get-put, get-nil}
use bulk_http.Models.{Task, Result}
use bulk_http.Net.Transport.{Env}
use bulk_http.Concurrency.Processor.{
  Processor, Machine, Run, run_once, is_adaptive, Limiter, unlimited, fixed, adaptive,
}
use bulk_http.Concurrency.Deferral.{
  keep_results, passes, collect_results, run_passes, run_batch, max_passes, or_one,
}
use bulk_http.Concurrency.Processor.Passes.{AnyError, SameIds, run_once-SameIds}

module _ {F : Floats} where
  Keyed : Dict ℕ (Result F) → Type 0
  Keyed d = (k : ℕ) (r : Result F) → get k d ≡ some r → r.source_id ≡ k

  Present : Dict ℕ (Result F) → ℕ → Type 0
  Present d k = is_some (get k d) ≡ true

  Keyed-put :
      (j : ℕ) (r : Result F) (d : Dict ℕ (Result F)) → r.source_id ≡ j → Keyed d → Keyed (put j r d)
  unfolding Keyed
  Keyed-put j r d own h k q e = ground (arith, get-put j k r d, h k q, nat_beq_iff j k)

  Present-put :
      (j k : ℕ) (r : Result F) (d : Dict ℕ (Result F)) → Present d k → Present (put j r d) k
  unfolding Present
  Present-put j k r d h = ground (arith, get-put j k r d)

  Present-put_self : (k : ℕ) (r : Result F) (d : Dict ℕ (Result F)) → Present (put k r d) k
  unfolding Present
  Present-put_self k r d = ground (arith, get-put k k r d)

  -- the results afterwards: still under their own ids, and none is lost
  record Later (d d' : Dict ℕ (Result F)) : Type 0 where
    keyed : Keyed d'
    stays : (k : ℕ) → Present d k → Present d' k

  collect-ids :
      (d : Dict ℕ (Result F)) (tasks : List (Task F))
      → Keyed d
      → All (λ t. Present d t.source_id) tasks
      → (rs : List (Result F)) × (collect_results d tasks ≡ ok rs)
        × (map (λ r. r.source_id) rs ≡ map (λ t. t.source_id) tasks)
  unfolding collect_results Present Keyed
  collect-ids d [] h p = ([], refl, refl)
  collect-ids d (task ∷ tasks) h p = elim (Option-cases (get task.source_id d)) [
    | inl e ↦ absurd (ground (arith, e, p.0))
    | inr (r, e) ↦
        let (rs, c, ids) = collect-ids d tasks h p.1 in
        (r ∷ rs, rw (e, c), ap₂ ◌∷◌ (h task.source_id r e) ids)
  ]

Keyed-nil : (F : Floats) → Keyed {F = F} []
unfolding Keyed
Keyed-nil F k r e = absurd (get-nil k r e)

module _ {F : Floats} {E : Env F} (P : Processor E) where
  -- a pass that raises this error
  pub PassFails : Error → Type 0
  PassFails x = (pending : List (Task F)) × (s : Machine E) × ((run_once P pending s).0 ≡ raise x)

  keep-Later :
      (tasks : List (Task F)) (rs : List (Result F)) (d : Dict ℕ (Result F))
      → SameIds P tasks rs
      → Keyed d
      → Later d (keep_results P tasks rs d).0
        × All (λ t. Present (keep_results P tasks rs d).0 t.source_id) tasks
  unfolding keep_results
  keep-Later [] rs d e h = (record { keyed = h; stays = λ k p. p }, tt)
  keep-Later (task ∷ tasks) [] d e h = absurd cc
  keep-Later (task ∷ tasks) (r ∷ rs) d e h =
      let own : r.source_id ≡ task.source_id = cc in
      let more : SameIds P tasks rs = cc in
      let d₁ = put task.source_id r d in
      let (later, all) = keep-Later tasks rs d₁ more (Keyed-put task.source_id r d own h) in
      (
        record {
          keyed = later.keyed;
          stays = λ k p. later.stays k (Present-put task.source_id k r d p);
        },
        (later.stays task.source_id (Present-put_self task.source_id r d), all),
      )

  -- after a pass over these tasks, each of them has a result
  Settled : List (Task F) → Dict ℕ (Result F) → Dict ℕ (Result F) → Type 0
  Settled tasks d d' = Later d d' × All (λ t. Present d' t.source_id) tasks

  All-Later :
      (tasks : List (Task F)) (d d' : Dict ℕ (Result F))
      → Later d d'
      → All (λ t. Present d t.source_id) tasks
      → All (λ t. Present d' t.source_id) tasks
  All-Later [] d d' l a = tt
  All-Later (task ∷ tasks) d d' l a = (l.stays task.source_id a.0, All-Later tasks d d' l a.1)

  run_once-fails :
      (tasks : List (Task F)) (s : Machine E)
      → Ensures (SameIds P tasks) PassFails (run_once P tasks s)
  unfolding PassFails
  run_once-fails tasks s =
      Ensures-map (SameIds P tasks) (SameIds P tasks) AnyError PassFails (run_once P tasks s)
        (λ rs h. h) (λ x _ e. (tasks, s, e)) (run_once-SameIds P tasks s)

  Later-trans : (d d₁ d₂ : Dict ℕ (Result F)) → Later d d₁ → Later d₁ d₂ → Later d d₂
  Later-trans d d₁ d₂ l m = record { keyed = m.keyed; stays = λ k p. m.stays k (l.stays k p) }

  PassesLater : ℕ → Type 0
  PassesLater n =
      (pending : List (Task F)) (d : Dict ℕ (Result F)) (s : Machine E)
      → Keyed d
      → Ensures (Later d) PassFails (passes P n pending d s)

  after_pass :
      (n : ℕ)
      → PassesLater n
      → (pending : List (Task F)) (d d₁ : Dict ℕ (Result F)) (deferred : List (Task F)) → Later d d₁
      → All (λ t. Present d₁ t.source_id) pending
      → (s : Machine E)
      → Ensures {S = Machine E} (Settled pending d) PassFails (
          (elim deferred as (λ _. Run E (Dict ℕ (Result F))) [
            | [] ↦ lift (ok d₁)
            | task ∷ tasks ↦ passes P n (task ∷ tasks) d₁
          ])
            s)
  unfolding Ensures lift Settled PassesLater
  after_pass n ih pending d d₁ [] later all s = (later, all)
  after_pass n ih pending d d₁ (task ∷ tasks) later all s =
      Ensures-map (Later d₁) (Settled pending d) PassFails PassFails
        (passes P n (task ∷ tasks) d₁ s)
        (λ d₂ more. (Later-trans d d₁ d₂ later more, All-Later pending d₁ d₂ more all)) (λ x f _. f)
        (ih (task ∷ tasks) d₁ s later.keyed)

  pass-Settled :
      (n : ℕ)
      → PassesLater n
      → (pending : List (Task F)) (d : Dict ℕ (Result F)) (s : Machine E) → Keyed d
      → Ensures (Settled pending d) PassFails (passes P (suc n) pending d s)
  unfolding passes Settled lift
  pass-Settled n ih pending d s h =
      Ensures-then (SameIds P pending) (Settled pending d) PassFails (run_once P pending) _ s
        (run_once-fails pending s)
        λ rs s₁ e.
          let (d₁, deferred) = keep_results P pending rs d in
          let (later, all) = keep-Later pending rs d e h in
          after_pass n ih pending d d₁ deferred later all s₁

  passes-Later : (n : ℕ) → PassesLater n
  unfolding passes Ensures lift PassesLater Settled
  passes-Later zero pending d s h = record { keyed = h; stays = λ k p. p }
  passes-Later (suc n) pending d s h =
      Ensures-map (Settled pending d) (Later d) PassFails PassFails (passes P (suc n) pending d s)
        (λ d' h. h.0) (λ x f _. f) (pass-Settled n (passes-Later n) pending d s h)

  max_passes-suc : (l : Limiter F) → (n : ℕ) × (max_passes l ≡ suc n)
  max_passes-suc unlimited = (0, refl)
  max_passes-suc (fixed l) = (0, refl)
  max_passes-suc (adaptive l) =
      elim (rounds l.config.max_attempts) as (λ k. (n : ℕ) × (or_one k ≡ suc n)) [
        | zero ↦ (0, refl)
        | suc n ↦ (n, refl)
      ]

  run_passes-SameIds :
      (loops : Bool) (n : ℕ) (tasks : List (Task F)) (s : Machine E)
      → Ensures (SameIds P tasks) PassFails (run_passes P loops (suc n) tasks s)
  unfolding run_passes Ensures lift Settled
  run_passes-SameIds false n tasks s = run_once-fails tasks s
  run_passes-SameIds true n tasks s =
      Ensures-then (Settled tasks []) (SameIds P tasks) PassFails (passes P (suc n) tasks []) _ s
        (pass-Settled n (passes-Later n) tasks [] s (Keyed-nil F))
        λ d s₁ settled.
          let (rs, c, ids) = collect-ids d tasks settled.0.keyed settled.1 in
          subst (λ r. Ensures {S = Machine E} (SameIds P tasks) PassFails (r, s₁)) (sym c) ids

  -- Whatever the limiter, run_batch returns one result for each task of the batch, under the
  -- task's id and in the order of the tasks; or it raises an error that some pass over tasks
  -- raises, and none of its own.
  pub run_batch-SameIds :
      (tasks : List (Task F)) (s : Machine E)
      → Ensures (SameIds P tasks) PassFails (run_batch P tasks s)
  unfolding run_batch
  run_batch-SameIds tasks s =
      let (n, e) = max_passes-suc s.limiter in
      subst
        (λ k. Ensures (SameIds P tasks) PassFails (run_passes P (is_adaptive s.limiter) k tasks s))
        (sym e) (run_passes-SameIds (is_adaptive s.limiter) n tasks s)
