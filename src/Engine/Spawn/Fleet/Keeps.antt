-- ===== src/Engine/Spawn/Fleet/Keeps.antt =====
-- What a worker's file holds, and its messages say, while batches of src/bulk_http/engine/spawn.py are
-- submitted, written and finished.
use bulk_http.Prelude.{
  ℕ, ◌+◌, ◌<◌, ◌≡◌, ap, ap₂, sym, ◌∙◌, subst, arith, String, true, false, List, [], ◌∷◌, ◌++◌,
  length, contains, nat_keys, string_keys, map, All, ◌==◌, length-append, All-append, append-nil,
  append_assoc, inl, inr, Bool-cases, if◌then◌else◌,
}
use mathlib.Core.List.{map-append}
use bulk_http.Dict.{get_or}
use bulk_http.Dict.Laws.{eq_refl}
use bulk_http.Bytes.{Bytes}
use bulk_http.Checkpoint.Store.{Entry, distributed_entry, empty_state}
use bulk_http.Checkpoint.Store.Loading.{replay, replay_from, replay_from-append, apply_entry}
use bulk_http.Engine.Campaign.{Batch}
use bulk_http.Engine.Campaign.Durable.{contains-append}
use bulk_http.Engine.Spawn.Fleet.{Message, Fleet, submit, spill, finish, message_ids}

-- the output of one worker's batches
abbrev pub outputs_of : String → List (String × Batch) → Bytes
outputs_of w [] = []
outputs_of w ((v, b) ∷ es) = if v == w then b.output ++ outputs_of w es else outputs_of w es

-- the output of the batches that a worker has reported
abbrev pub reported : List Message → Bytes
reported [] = []
reported (m ∷ ms) = m.batch.output ++ reported ms

abbrev pub done_ids : List (String × Batch) → List ℕ
done_ids = map (λ e. e.1.chunk_id)

-- the offsets in a worker's messages are where their outputs end, behind `n` bytes
abbrev pub AreOffsets : ℕ → List Message → Type 0
AreOffsets n [] = Unit
AreOffsets n (m ∷ ms) =
    (m.offset ≡ n + length m.batch.output) × AreOffsets (n + length m.batch.output) ms

abbrev pub IsRising : List ℕ → Type 0
IsRising [] = Unit
IsRising (n ∷ ns) = All (λ m. n < m) ns × IsRising ns

-- What a worker's file holds, and what its messages say.
pub record Keeps (done : List (String × Batch)) (f : Fleet) (w : String) : Type 0 where
  pub content : f.files w ≡ outputs_of w done ++ (reported (f.waiting w) ++ f.partial w)
  pub offset : get_or w 0 (replay f.manifest).committed_offsets ≡ length (outputs_of w done)
  pub offsets : AreOffsets (length (outputs_of w done)) (f.waiting w)
  pub rising : IsRising (message_ids (f.waiting w))
  pub queued : All (λ n. contains f.queue n ≡ true) (message_ids (f.waiting w))
  pub owned : All (λ n. f.owner n ≡ w) (message_ids (f.waiting w))

pub replay-snoc : (es : List Entry) (e : Entry) → replay (es ++ e ∷ []) ≡ apply_entry (replay es) e
unfolding replay_from
replay-snoc es e = replay_from-append es (e ∷ []) empty_state

pub outputs_of-snoc :
    (w v : String) (b : Batch) (es : List (String × Batch))
    → outputs_of w (es ++ (v, b) ∷ []) ≡ outputs_of w es ++ (if v == w then b.output else [])
outputs_of-snoc w v b [] = ground (arith, append-nil b.output)
outputs_of-snoc w v b ((u, c) ∷ es) = ground (
  arith,
  outputs_of-snoc w v b es,
  append_assoc c.output (outputs_of w es) (if v == w then b.output else []),
)

reported-snoc :
    (m : Message) (ms : List Message) → reported (ms ++ m ∷ []) ≡ reported ms ++ m.batch.output
reported-snoc m [] = append-nil m.batch.output
reported-snoc m (k ∷ ms) =
    ap (◌++◌ k.batch.output) (reported-snoc m ms)
    ∙ sym (append_assoc k.batch.output (reported ms) m.batch.output)

-- a list of ids that only rise, with one more
pub IsRising-snoc :
    (ns : List ℕ) (n : ℕ) → IsRising ns → All (λ m. m < n) ns → IsRising (ns ++ n ∷ [])
IsRising-snoc [] n r a = (tt, tt)
IsRising-snoc (k ∷ ns) n r a =
    (All-append (λ m. k < m) ns (n ∷ []) r.0 (a.0, tt), IsRising-snoc ns n r.1 a.1)

AreOffsets-snoc :
    (n : ℕ) (ms : List Message) (m : Message)
    → AreOffsets n ms
    → m.offset ≡ n + (length (reported ms) + length m.batch.output)
    → AreOffsets n (ms ++ m ∷ [])
AreOffsets-snoc n [] m h e = (omega (arith, e), tt)
AreOffsets-snoc n (k ∷ ms) m h e = (
  h.0,
  AreOffsets-snoc (n + length k.batch.output) ms m h.1
      (omega (arith, e, length-append k.batch.output (reported ms))),
)

-- the worker that a step is about, and the others
pub by_worker {ℓ} :
    {C : String → Type ℓ} (w : String)
    → C w
    → ((v : String) → (w == v) ≡ false → C v)
    → (v : String) → C v
by_worker {C = C} w here there v = elim (Bool-cases (w == v)) [
  | inl same ↦ subst C ((string_keys.same_iff w v).0 same) here
  | inr other ↦ there v other
]

still_queued :
    (queue : List ℕ) (n : ℕ) (ns : List ℕ)
    → All (λ m. contains queue m ≡ true) ns
    → All (λ m. contains (queue ++ n ∷ []) m ≡ true) ns
still_queued queue n [] h = tt
still_queued queue n (m ∷ ns) h =
    (ground (arith, contains-append queue (n ∷ []) m, h.0), still_queued queue n ns h.1)

pub submit-Keeps :
    (done : List (String × Batch)) (f : Fleet) (n : ℕ) (w : String)
    → Keeps done f w
    → Keeps done (submit n f) w
unfolding submit apply_entry
submit-Keeps done f n w h = record {
  content = h.content;
  offset =
      ap (λ s. get_or w 0 s.committed_offsets) (replay-snoc f.manifest (distributed_entry n))
      ∙ h.offset;
  offsets = h.offsets;
  rising = h.rising;
  owned = h.owned;
  queued = still_queued f.queue n (message_ids (f.waiting w)) h.queued;
}

pub spill-Keeps :
    (done : List (String × Batch)) (f : Fleet) (w : String) (bs : Bytes)
    → ((v : String) → Keeps done f v)
    → (v : String) → Keeps done (spill w bs f) v
unfolding spill
spill-Keeps done f w bs h =
    by_worker w
      (record {
        content = ground (
          arith,
          eq_refl w,
          (h w).content,
          append_assoc (outputs_of w done) (reported (f.waiting w) ++ f.partial w) bs,
          append_assoc (reported (f.waiting w)) (f.partial w) bs,
        );
        offset = (h w).offset;
        offsets = (h w).offsets;
        rising = (h w).rising;
        owned = (h w).owned;
        queued = (h w).queued;
      })
      λ v other. record {
        content = rw other ((h v).content);
        offset = (h v).offset;
        offsets = (h v).offsets;
        rising = (h v).rising;
        owned = (h v).owned;
        queued = (h v).queued;
      }

module _ (done : List (String × Batch)) (f : Fleet) (w : String) (n count : ℕ)
    (here : contains f.queue n ≡ true) (mine : f.owner n ≡ w)
    (last : All (λ m. m < n) (message_ids (f.waiting w))) (h : (v : String) → Keeps done f v) where
  abbrev message : Message
  message = record {
    batch = record { chunk_id = n; output = f.partial w; count = count };
    offset = length (f.files w);
  }

  grown : (finish w n count f).waiting w ≡ f.waiting w ++ message ∷ []
  unfolding finish
  grown = ground (arith, eq_refl w)

  message_ids-grown :
      message_ids ((finish w n count f).waiting w) ≡ message_ids (f.waiting w) ++ n ∷ []
  message_ids-grown =
      ap message_ids grown ∙ map-append (λ m. m.batch.chunk_id) (f.waiting w) (message ∷ [])

  emptied : (finish w n count f).partial w ≡ []
  unfolding finish
  emptied = ground (arith, eq_refl w)

  finish-content :
      (finish w n count f).files w
      ≡ outputs_of w done
        ++ (reported ((finish w n count f).waiting w) ++ (finish w n count f).partial w)
  unfolding finish
  finish-content =
      (h w).content
      ∙ ap (◌++◌ (outputs_of w done)) (
          sym (
            ap₂ ◌++◌ (ap reported grown ∙ reported-snoc message (f.waiting w)) emptied
            ∙ append-nil (reported (f.waiting w) ++ f.partial w)))

  finish-offsets : AreOffsets (length (outputs_of w done)) ((finish w n count f).waiting w)
  finish-offsets = subst (AreOffsets (length (outputs_of w done))) (sym grown) (
      AreOffsets-snoc (length (outputs_of w done)) (f.waiting w) message (h w).offsets (
        ap length (h w).content
        ∙ omega (
          arith,
          length-append (outputs_of w done) (reported (f.waiting w) ++ f.partial w),
          length-append (reported (f.waiting w)) (f.partial w),
        )))

  pub finish-Keeps : (v : String) → Keeps done (finish w n count f) v
  unfolding finish
  finish-Keeps =
      by_worker w
        (record {
          content = finish-content;
          offset = (h w).offset;
          offsets = finish-offsets;
          rising =
              subst IsRising (sym message_ids-grown)
                (IsRising-snoc (message_ids (f.waiting w)) n (h w).rising last);
          queued = subst (All (λ m. contains f.queue m ≡ true)) (sym message_ids-grown) (
              All-append (λ m. contains f.queue m ≡ true) (message_ids (f.waiting w)) (n ∷ [])
                (h w).queued (here, tt));
          owned = subst (All (λ m. f.owner m ≡ w)) (sym message_ids-grown) (
              All-append (λ m. f.owner m ≡ w) (message_ids (f.waiting w)) (n ∷ []) (h w).owned
                (mine, tt));
        })
        λ v other. record {
          content = rw other ((h v).content);
          offset = (h v).offset;
          offsets = rw other ((h v).offsets);
          rising = rw other ((h v).rising);
          owned = rw other ((h v).owned);
          queued = rw other ((h v).queued);
        }
