-- ===== src/Engine/Stream.antt =====
-- The generators of src/bulk_http/engine/core.py and src/bulk_http/concurrency/chunking.py as they
-- are pulled: a task is prepared when the batch that it falls into is asked for, so that the batches
-- in front of an error are run. A task that `_prepare` skips stands in its stream as none.
pub mod Eager
pub mod Fresh
use bulk_http.Prelude.{
  ℕ, suc, String, Bool, true, false, Option, none, some, List, [], ◌∷◌, ◌++◌, length, contains,
  nat_keys, nat_beq,
}
use bulk_http.Prelude.Int.{ℤ, lt_num, rounds}
use bulk_http.Except.{Error, Except, ok, raise, value_error}
use bulk_http.Floats.{Floats}
use bulk_http.Models.{Task}
use bulk_http.Texts.{Texts}
use bulk_http.Compliance.Filter.{ComplianceFilter, is_allowed}
use bulk_http.Engine.Prepare.{prepare_request}

-- What a generator yields, and whether it ends or raises.
pub data Stream {ℓ} (A : Type ℓ) : Type ℓ where
  ends : Stream A
  breaks : Error → Stream A
  item : A → Stream A → Stream A

abbrev pub of_list {ℓ} : {A : Type ℓ} → List A → Stream A
of_list [] = ends
of_list (a ∷ rest) = item a (of_list rest)

-- what the executor pulls: numbered batches, and skipped tasks between them
abbrev pub Pulls : Floats → Type 0
Pulls F = Stream (Option (ℕ × List (Task F)))

module _ {F : Floats} (T : Texts) (f : ComplianceFilter) (needle : String)
    (hostname : String → Except (Option String)) where
  -- Engine._prepare
  unfoldable pub prepare_lazily : Stream (Task F) → Stream (Option (Task F))
  unfolding prepare_request
  prepare_lazily ends = ends
  prepare_lazily (breaks x) = breaks x
  prepare_lazily (item task source) =
      let rest = prepare_lazily source in
      elim (is_allowed hostname f task.request.url) [
        | raise x ↦ breaks x
        | ok false ↦ item none rest
        | ok true ↦ elim (prepare_request T f needle task.request) [
          | raise x ↦ breaks x
          | ok request ↦ item (some (record { source_id = task.source_id; request = request })) rest
        ]
      ]

module _ {ℓ} {A : Type ℓ} where
  -- the loop of chunk_batches, with the batch that is being filled
  unfoldable pub chunk_lazily : ℕ → List A → Stream (Option A) → Stream (Option (List A))
  chunk_lazily size [] ends = ends
  chunk_lazily size (b ∷ batch) ends = item (some (b ∷ batch)) ends
  chunk_lazily size batch (breaks x) = breaks x
  chunk_lazily size batch (item none items) = item none (chunk_lazily size batch items)
  chunk_lazily size batch (item (some x) items) =
      let next = batch ++ x ∷ [] in
      elim (nat_beq (length next) size) [
        | true ↦ item (some next) (chunk_lazily size [] items)
        | false ↦ chunk_lazily size next items
      ]

  -- chunk_batches, whose check runs at the first pull
  unfoldable pub chunk_stream : ℤ → Stream (Option A) → Stream (Option (List A))
  unfolding chunk_lazily
  chunk_stream size items = elim (lt_num size 1) [
    | true ↦ breaks value_error
    | false ↦ chunk_lazily (rounds size) [] items
  ]

  -- `distributed`, numbered from `n`
  unfoldable pub distribute : List ℕ → ℕ → Stream (Option A) → Stream (Option (ℕ × A))
  distribute committed n ends = ends
  distribute committed n (breaks x) = breaks x
  distribute committed n (item none batches) = item none (distribute committed n batches)
  distribute committed n (item (some batch) batches) =
      let rest = distribute committed (suc n) batches in
      elim (contains committed n) [ true ↦ rest | false ↦ item (some (n, batch)) rest ]

-- `distributed`, over `chunk_batches` over `_prepare` over the source
unfoldable pub batches :
    {F : Floats}
    → Texts
    → ComplianceFilter
    → String
    → (String → Except (Option String))
    → List ℕ
    → ℤ
    → Stream (Task F)
    → Pulls F
unfolding prepare_lazily chunk_stream distribute
batches T f needle hostname committed size source =
    distribute committed 0 (chunk_stream size (prepare_lazily T f needle hostname source))
