-- ===== src/Engine/Stream/Eager.antt =====
-- The generators pulled to their end, against `prepare`, `chunk_batches` and `distributed` on lists.
use bulk_http.Prelude.{
  ℕ, suc, ◌≡◌, refl, arith, String, true, false, Option, none, some, List, [], ◌∷◌, ◌++◌, nat_keys,
  inl, inr,
}
use bulk_http.Prelude.Int.{ℤ, lt_num, rounds}
use bulk_http.Except.{Except, ok, raise, ◌>>=◌, Except-cases}
use bulk_http.Floats.{Floats}
use bulk_http.Models.{Task}
use bulk_http.Texts.{Texts}
use bulk_http.Compliance.Filter.{ComplianceFilter, is_allowed}
use bulk_http.Concurrency.Chunking.{chunk_from, chunk_batches}
use bulk_http.Engine.Prepare.{prepare_request, prepare, distributed}
use bulk_http.Engine.Stream.{
  Stream, ends, breaks, item, of_list, prepare_lazily, chunk_lazily, chunk_stream, distribute,
  batches,
}

module _ {ℓ} {A : Type ℓ} where
  abbrev pub onto : A → List A × ℕ → List A × ℕ
  onto a (items, k) = (a ∷ items, k)

  -- what is yielded, and how many are skipped after `k`
  unfoldable pub collect : Stream (Option A) → ℕ → Except (List A × ℕ)
  collect ends k = ok ([], k)
  collect (breaks x) k = raise x
  collect (item none s) k = collect s (suc k)
  collect (item (some a) s) k = collect s k >>= λ rest. ok (onto a rest)

module _ {F : Floats} (T : Texts) (f : ComplianceFilter) (needle : String)
    (hostname : String → Except (Option String)) where
  pub prepare_lazily-collect :
      (tasks : List (Task F)) (k : ℕ)
      → collect (prepare_lazily T f needle hostname (of_list tasks)) k
        ≡ prepare T f needle hostname tasks k
  unfolding prepare prepare_lazily collect
  prepare_lazily-collect [] k = refl
  prepare_lazily-collect (task ∷ tasks) k =
      elim (Except-cases (is_allowed hostname f task.request.url)) [
        | inr (x, e) ↦ ground (arith, e)
        | inl (false, e) ↦ ground (arith, e, prepare_lazily-collect tasks (suc k))
        | inl (true, e) ↦ elim (Except-cases (prepare_request T f needle task.request)) [
          | inr (x, e') ↦ ground (arith, e, e')
          | inl (r, e') ↦ ground (arith, e, e', prepare_lazily-collect tasks k)
        ]
      ]

module _ {ℓ} {A : Type ℓ} where
  -- chunk_batches on what was collected
  abbrev chunked : ℕ → List A → Except (List A × ℕ) → Except (List (List A) × ℕ)
  chunked size batch (ok (items, k)) = ok (chunk_from size batch items, k)
  chunked size batch (raise x) = raise x

  chunk_lazily-collect :
      (size : ℕ) (batch : List A) (s : Stream (Option A)) (k : ℕ)
      → collect (chunk_lazily size batch s) k ≡ chunked size batch (collect s k)
  unfolding chunk_lazily collect chunk_from
  chunk_lazily-collect size [] ends k = refl
  chunk_lazily-collect size (b ∷ batch) ends k = refl
  chunk_lazily-collect size [] (breaks x) k = refl
  chunk_lazily-collect size (b ∷ batch) (breaks x) k = refl
  chunk_lazily-collect size [] (item none s) k = chunk_lazily-collect size [] s (suc k)
  chunk_lazily-collect size (b ∷ batch) (item none s) k =
      chunk_lazily-collect size (b ∷ batch) s (suc k)
  chunk_lazily-collect size [] (item (some a) s) k =
      ground (arith, chunk_lazily-collect size [] s k, chunk_lazily-collect size (a ∷ []) s k)
  chunk_lazily-collect size (b ∷ batch) (item (some a) s) k = ground (
    arith,
    chunk_lazily-collect size [] s k,
    chunk_lazily-collect size (b ∷ (batch ++ a ∷ [])) s k,
  )

  -- `distributed` on what was collected
  abbrev numbered : List ℕ → ℕ → Except (List A × ℕ) → Except (List (ℕ × A) × ℕ)
  numbered committed n (ok (batches, k)) = ok (distributed committed n batches, k)
  numbered committed n (raise x) = raise x

  distribute-collect :
      (committed : List ℕ) (n : ℕ) (s : Stream (Option A)) (k : ℕ)
      → collect (distribute committed n s) k ≡ numbered committed n (collect s k)
  unfolding distribute collect distributed
  distribute-collect committed n ends k = refl
  distribute-collect committed n (breaks x) k = refl
  distribute-collect committed n (item none s) k = distribute-collect committed n s (suc k)
  distribute-collect committed n (item (some a) s) k =
      ground (arith, distribute-collect committed (suc n) s k)

module _ {F : Floats} (T : Texts) (f : ComplianceFilter) (needle : String)
    (hostname : String → Except (Option String)) where
  -- For a chunk size of one or more, pulling the engine's batches from a source that raises nothing
  -- until they end yields what preparing the whole source, cutting the prepared tasks and leaving
  -- out the committed batches gives, counts as many skipped tasks, and raises exactly when preparing
  -- the source raises, with the same error.
  pub batches-collect :
      (committed : List ℕ) (size : ℤ) (tasks : List (Task F))
      → lt_num size 1 ≡ false
      → collect (batches T f needle hostname committed size (of_list tasks)) 0 ≡ (
          prepare T f needle hostname tasks 0 >>= λ kept.
          chunk_batches kept.0 size >>= λ cut. ok (distributed committed 0 cut, kept.1))
  unfolding batches chunk_stream chunk_batches
  batches-collect committed size tasks h =
      let pulled = prepare_lazily T f needle hostname (of_list tasks) in
      ground (
        arith,
        h,
        distribute-collect committed 0 (chunk_lazily (rounds size) [] pulled) 0,
        chunk_lazily-collect (rounds size) [] pulled 0,
        prepare_lazily-collect T f needle hostname tasks 0,
      )
