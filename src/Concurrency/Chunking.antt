-- ===== src/Concurrency/Chunking.antt =====
-- src/bulk_http/concurrency/chunking.py: a stream of items cut into batches.
pub mod Laws
use bulk_http.Prelude.{ℕ, Bool, true, false, List, [], ◌∷◌, ◌++◌, length, nat_beq}
use bulk_http.Prelude.Int.{ℤ, pos, negsuc, rounds, lt_num}
use bulk_http.Except.{Except, ok, value_error, ◌>>=◌, ◌>>◌, raise_if}

module _ {ℓ} {A : Type ℓ} where
  -- the loop, with the batch that is being filled
  unfoldable pub chunk_from : ℕ → List A → List A → List (List A)
  chunk_from size [] [] = []
  chunk_from size (b ∷ batch) [] = (b ∷ batch) ∷ []
  chunk_from size batch (x ∷ items) =
      let next = batch ++ x ∷ [] in
      elim (nat_beq (length next) size) [
        | true ↦ next ∷ chunk_from size [] items
        | false ↦ chunk_from size next items
      ]

  unfoldable pub chunk_batches : List A → ℤ → Except (List (List A))
  unfolding chunk_from
  chunk_batches items size = do
    raise_if (lt_num size 1) value_error
    ok (chunk_from (rounds size) [] items)
