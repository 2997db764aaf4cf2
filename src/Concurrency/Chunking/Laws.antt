-- ===== src/Concurrency/Chunking/Laws.antt =====
-- The batches of src/bulk_http/concurrency/chunking.py against the stream.
use bulk_http.Prelude.{
  ℕ, ◌≤◌, ◌<◌, ◌≡◌, refl, inl, inr, false, List, [], ◌∷◌, ◌++◌, length, concat, length-append,
  nat_beq, nat_beq_iff, if◌then◌else◌, arith, Bool-cases, append_assoc,
}
use bulk_http.Prelude.Int.{pos}
use bulk_http.Except.{ok}
use bulk_http.Concurrency.Chunking.{chunk_from, chunk_batches}

room : (k n : ℕ) → nat_beq k n ≡ false → k ≤ n → k < n
room k n more h = ground arith

module _ {ℓ} {A : Type ℓ} where
  -- every batch but the last holds exactly `size` items, and the last one between 1 and `size`
  abbrev pub AreFull : ℕ → List (List A) → Type 0
  AreFull size [] = Unit
  AreFull size (b ∷ []) = (0 < length b) × (length b ≤ size)
  AreFull size (b ∷ c ∷ rest) = (length b ≡ size) × AreFull size (c ∷ rest)

  AreFull-cons :
      (size : ℕ) (b : List A) (rest : List (List A))
      → length b ≡ size
      → 0 < size
      → AreFull size rest
      → AreFull size (b ∷ rest)
  AreFull-cons size b [] e some_room h = (omega arith, omega arith)
  AreFull-cons size b (c ∷ rest) e some_room h = (e, h)

  chunk_step :
      (size : ℕ) (batch items : List A) (x : A)
      → chunk_from size batch (x ∷ items) ≡ (
          if nat_beq (length (batch ++ x ∷ [])) size
          then (batch ++ x ∷ []) ∷ chunk_from size [] items
          else chunk_from size (batch ++ x ∷ []) items)
  unfolding chunk_from
  chunk_step size [] items x = ground arith
  chunk_step size (b ∷ batch) items x = ground arith

  concat-chunk_from :
      (size : ℕ) (batch items : List A) → concat (chunk_from size batch items) ≡ batch ++ items
  unfolding chunk_from
  concat-chunk_from size [] [] = refl
  concat-chunk_from size (b ∷ batch) [] = refl
  concat-chunk_from size batch (x ∷ items) = ground (
    arith,
    chunk_step size batch items x,
    concat-chunk_from size [] items,
    concat-chunk_from size (batch ++ x ∷ []) items,
    append_assoc batch (x ∷ []) items,
  )

  chunk_from-AreFull :
      (size : ℕ) (batch items : List A)
      → length batch < size
      → AreFull size (chunk_from size batch items)
  unfolding chunk_from
  chunk_from-AreFull size [] [] h = tt
  chunk_from-AreFull size (b ∷ batch) [] h = (omega arith, omega arith)
  chunk_from-AreFull size batch (x ∷ items) h =
      rw chunk_step (elim (Bool-cases (nat_beq (length (batch ++ x ∷ [])) size)) [
        | inl full ↦ rw full (
            AreFull-cons size (batch ++ x ∷ []) _ ((nat_beq_iff _ size).0 full) (omega arith)
              (chunk_from-AreFull size [] items (omega arith)))
        | inr more ↦ rw more (
            chunk_from-AreFull size (batch ++ x ∷ []) items (
              room (length (batch ++ x ∷ [])) size more
                (omega (arith, length-append batch (x ∷ [])))))
      ])

  -- With a size of at least one, cutting a stream raises nothing, the batches in order are the
  -- stream, every batch but the last has exactly that size, and the last is not empty.
  pub chunk_batches_lem :
      (items : List A) (n : ℕ)
      → 0 < n
      → (batches : List (List A)) × (chunk_batches items (pos n) ≡ ok batches)
        × (concat batches ≡ items)
        × AreFull n batches
  unfolding chunk_batches
  chunk_batches_lem items n h = (
    chunk_from n [] items,
    ground arith,
    concat-chunk_from n [] items,
    chunk_from-AreFull n [] items h,
  )
