-- ===== src/Engine/Spawn/Fleet/Gathering.antt =====
-- The message that the coordinator of src/bulk_http/engine/spawn.py collects, and the worker's file.
use bulk_http.Prelude.{
  ℕ, ◌+◌, ◌<◌, ◌≤◌, ◌≡◌, refl, ap, ap₂, sym, ◌∙◌, subst, arith, String, true, false, List, [], ◌∷◌,
  ◌++◌, length, contains, nat_keys, string_keys, All, ◌==◌, length-append, append-nil, append_assoc,
  inl, inr, Bool-cases, nat_beq_iff, if◌then◌else◌,
}
use bulk_http.Dict.{get_or}
use bulk_http.Dict.Laws.{get_or-put, eq_refl}
use bulk_http.Checkpoint.Store.Loading.{replay, apply_entry}
use bulk_http.Engine.Campaign.{Batch}
use bulk_http.Engine.Spawn.Fleet.{Message, Fleet, gather, message_ids}
use bulk_http.Engine.Spawn.Fleet.Keeps.{
  outputs_of, reported, AreOffsets, IsRising, Keeps, replay-snoc, outputs_of-snoc, by_worker,
}

-- the first of a list of ids that only rise
IsRising-least : (n k : ℕ) (ns : List ℕ) → IsRising (n ∷ ns) → contains (n ∷ ns) k ≡ true → n ≤ k
IsRising-least n k [] r h = ground (arith, nat_beq_iff n k, h)
IsRising-least n k (m ∷ ns) r h = elim (Bool-cases (contains (m ∷ ns) k)) [
  | inl inside ↦ omega (arith, r.0.0, IsRising-least m k ns r.1 inside)
  | inr outside ↦ ground (arith, nat_beq_iff n k, h, outside)
]

below_last :
    {k : ℕ} (m : Message) (behind ms : List Message)
    → All (λ n. k < n) (message_ids (ms ++ m ∷ behind))
    → k < m.batch.chunk_id
below_last m behind [] h = h.0
below_last m behind (y ∷ ms) h = below_last m behind ms h.1

-- so the message that is collected is its worker's first
pub first_message :
    (before behind : List Message) (m : Message) (queue : List ℕ)
    → IsRising (m.batch.chunk_id ∷ queue)
    → IsRising (message_ids (before ++ m ∷ behind))
    → All (λ n. contains (m.batch.chunk_id ∷ queue) n ≡ true) (message_ids (before ++ m ∷ behind))
    → before ≡ []
first_message [] behind m queue q r a = refl
first_message (x ∷ before) behind m queue q r a =
    let least = IsRising-least m.batch.chunk_id x.batch.chunk_id queue q a.0 in
    let below = below_last m behind before r.0 in absurd (omega (arith, least, below))

-- an id behind the first one of a queue
contains-tail :
    (n k : ℕ) (queue : List ℕ)
    → contains (n ∷ queue) k ≡ true
    → (k ≡ n → ⊥)
    → contains queue k ≡ true
contains-tail n k queue h ne = ground (arith, nat_beq_iff n k, h, ne)

-- the ids that are left in the queue when the first one is taken
All-tail :
    (n : ℕ) (queue ns : List ℕ)
    → All (λ k. contains (n ∷ queue) k ≡ true) ns
    → All (λ k. k ≡ n → ⊥) ns
    → All (λ k. contains queue k ≡ true) ns
All-tail n queue [] h ne = tt
All-tail n queue (k ∷ ns) h ne = (contains-tail n k queue h.0 ne.0, All-tail n queue ns h.1 ne.1)

All-map : {P Q : ℕ → Type 0} (ns : List ℕ) → ((n : ℕ) → P n → Q n) → All P ns → All Q ns
All-map [] f h = tt
All-map (n ∷ ns) f h = (f n h.0, All-map ns f h.1)

module _ (done : List (String × Batch)) (f : Fleet) (w : String) (m : Message)
    (behind : List Message) (queue : List ℕ) (first : f.queue ≡ m.batch.chunk_id ∷ queue)
    (there : f.waiting w ≡ m ∷ behind) (h : (v : String) → Keeps done f v) where
  abbrev pub after : Fleet
  unfolding gather
  after = gather w m behind queue f

  abbrev pub done' : List (String × Batch)
  done' = done ++ (w, m.batch) ∷ []

  outputs_of-here : outputs_of w done' ≡ outputs_of w done ++ m.batch.output
  outputs_of-here = ground (arith, outputs_of-snoc w w m.batch done, eq_refl w)

  outputs_of-there : (v : String) → (w == v) ≡ false → outputs_of v done' ≡ outputs_of v done
  outputs_of-there v other =
      ground (arith, outputs_of-snoc v w m.batch done, other, append-nil (outputs_of v done))

  left_here : after.waiting w ≡ behind
  unfolding after
  left_here = ground (arith, eq_refl w)

  gather-offset :
      (v : String)
      → get_or v 0 (replay after.manifest).committed_offsets
        ≡ (if w == v then m.offset else get_or v 0 (replay f.manifest).committed_offsets)
  unfolding after apply_entry
  gather-offset v =
      ap (λ s. get_or v 0 s.committed_offsets) (replay-snoc f.manifest _)
      ∙ get_or-put w v m.offset 0 (replay f.manifest).committed_offsets

  abbrev n : ℕ
  n = m.batch.chunk_id

  -- what is known of the messages of the worker, in two parts
  offset_here : m.offset ≡ length (outputs_of w done) + length m.batch.output
  offset_here = (subst (AreOffsets (length (outputs_of w done))) there (h w).offsets).0

  IsRising-here : IsRising (n ∷ message_ids behind)
  IsRising-here = subst (λ ms. IsRising (message_ids ms)) there (h w).rising

  owned_here : All (λ k. f.owner k ≡ w) (n ∷ message_ids behind)
  owned_here = subst (λ ms. All (λ k. f.owner k ≡ w) (message_ids ms)) there (h w).owned

  queued_here : All (λ k. contains (n ∷ queue) k ≡ true) (n ∷ message_ids behind)
  queued_here =
      subst (λ ms. All (λ k. contains (n ∷ queue) k ≡ true) (message_ids ms)) there
        (subst (λ q. All (λ k. contains q k ≡ true) (message_ids (f.waiting w))) first (h w).queued)

  length-here : length (outputs_of w done) + length m.batch.output ≡ length (outputs_of w done')
  length-here =
      sym (length-append (outputs_of w done) m.batch.output) ∙ ap length (sym outputs_of-here)

  content_here : f.files w ≡ outputs_of w done' ++ (reported (after.waiting w) ++ f.partial w)
  content_here =
      (h w).content
      ∙ ap (λ ms. outputs_of w done ++ (reported ms ++ f.partial w)) there
      ∙ ap (◌++◌ (outputs_of w done)) (append_assoc m.batch.output (reported behind) (f.partial w))
      ∙ sym (append_assoc (outputs_of w done) m.batch.output (reported behind ++ f.partial w))
      ∙ ap₂ (λ o ms. o ++ (reported ms ++ f.partial w)) (sym outputs_of-here) (sym left_here)

  Keeps-here : Keeps done' after w
  unfolding after
  Keeps-here = record {
    content = content_here;
    offset = gather-offset w ∙ ground (arith, eq_refl w) ∙ offset_here ∙ length-here;
    offsets = subst (AreOffsets (length (outputs_of w done'))) (sym left_here) (
        subst (λ k. AreOffsets k behind) length-here
          (subst (AreOffsets (length (outputs_of w done))) there (h w).offsets).1);
    rising = subst (λ ms. IsRising (message_ids ms)) (sym left_here) IsRising-here.1;
    queued =
        subst (λ ms. All (λ k. contains queue k ≡ true) (message_ids ms)) (sym left_here)
          (All-tail n queue (message_ids behind) queued_here.1 (
            All-map (message_ids behind) (λ k below same. absurd (omega (arith, below, same)))
              IsRising-here.0));
    owned = subst (λ ms. All (λ k. f.owner k ≡ w) (message_ids ms)) (sym left_here) owned_here.1;
  }

  -- another worker has no message of this id
  not_there : (v : String) → (w == v) ≡ false → (k : ℕ) → f.owner k ≡ v → k ≡ n → ⊥
  not_there v other k mine same =
      let equal : w ≡ v = sym owned_here.0 ∙ ap f.owner (sym same) ∙ mine in
      absurd (ground (arith, other, (string_keys.same_iff w v).1 equal))

  Keeps-there : (v : String) → (w == v) ≡ false → Keeps done' after v
  unfolding after
  Keeps-there v other =
      let same = outputs_of-there v other in
      record {
        content =
            (h v).content
            ∙ ap (λ o. o ++ (reported (f.waiting v) ++ f.partial v)) (sym same)
            ∙ rw other refl;
        offset = gather-offset v ∙ rw other ((h v).offset) ∙ ap length (sym same);
        offsets =
            rw other (subst (λ o. AreOffsets (length o) (f.waiting v)) (sym same) (h v).offsets);
        rising = rw other ((h v).rising);
        queued = rw other (
            All-tail n queue (message_ids (f.waiting v))
              (subst (λ q. All (λ k. contains q k ≡ true) (message_ids (f.waiting v))) first
                (h v).queued)
              (All-map (message_ids (f.waiting v)) (not_there v other) (h v).owned));
        owned = rw other ((h v).owned);
      }

  pub gather-Keeps : (v : String) → Keeps done' after v
  gather-Keeps = by_worker w Keeps-here Keeps-there
