-- ===== src/Engine/Executor/Crashes.antt =====
-- The disk that an execution of src/bulk_http/engine/executor.py leaves, on its end and on errors.
use bulk_http.Prelude.{
  ℕ, ◌+◌, ◌≡◌, refl, ap, sym, ◌∙◌, subst, arith, false, some, List, [], ◌∷◌, ◌++◌, length, contains,
  nat_keys, append_assoc, append-nil,
}
use mathlib.Core.List.{map-append}
use bulk_http.Except.{Except, ok}
use bulk_http.Floats.{Floats}
use bulk_http.Bytes.{Bytes}
use bulk_http.Value.{Value}
use bulk_http.Models.{Task, Result}
use bulk_http.Net.Transport.{Env}
use bulk_http.Concurrency.Processor.{Processor}
use bulk_http.Sinks.Ndjson.Buffering.{lines}
use bulk_http.Engine.Campaign.{
  Disk, Batch, ids, committed_ids, hand_out, grow, confirm, Reaches, hands_out, writes, commits,
}
use bulk_http.Engine.Campaign.Durable.{Reaches-Holds}
use bulk_http.Engine.Stream.{Pulls, item}
use bulk_http.Engine.Stream.Fresh.{ids_of, AreNew}
use bulk_http.Engine.Control.{count_batch}
use bulk_http.Engine.Executor.{filename}
use bulk_http.Engine.Executor.Ledger.{
  Ledger, matched_only, handed, settled, Runs, stops, source_fails, skips, settles, batch_fails,
}

module _ {F : Floats} {W : Type 0} where
  -- the disk of a ledger
  abbrev pub disk_of : Ledger F W → Disk
  disk_of l = record { manifest = l.entries; file = l.output }

-- what is behind the committed batches: as before, or nothing once a batch was committed
abbrev pub left_of : List Batch → Bytes → Bytes
left_of [] partial = partial
left_of (b ∷ bs) partial = []

pub left_of-nil : (bs : List Batch) → left_of bs [] ≡ []
left_of-nil [] = refl
left_of-nil (b ∷ bs) = refl

-- how many results were written
abbrev pub counts : List Batch → ℕ
counts [] = 0
counts (b ∷ bs) = b.count + counts bs

-- The batches that were committed since, what is written of the next one, and the ids of the former.
pub record Advanced {F : Floats} {W : Type 0} (done : List Batch) (partial : Bytes) (s : Pulls F)
    (r : Except (Unit {0})) (l l' : Ledger F W) : Type 0 where
  pub more : List Batch
  pub rest : Bytes
  pub reached : Reaches filename (done ++ more) rest (disk_of l')
  -- the ids that were not committed
  pub left : List ℕ
  pub in_order : ids more ++ left ≡ ids_of s
  pub complete : r ≡ ok tt → left ≡ []
  pub leftover : rest ≡ left_of more partial
  pub chunks : l'.totals.chunks ≡ l.totals.chunks + length more
  pub matched : l'.totals.matched ≡ l.totals.matched + counts more

module _ {F : Floats} {E : Env F} {W : Type 0} (P : Processor E) (draw : ℕ → W → ℕ × W)
    (dumps : Value F → Bytes) where
  handed-Reaches :
      (n : ℕ) (l : Ledger F W) (done : List Batch) (partial : Bytes)
      → Reaches filename done partial (disk_of l)
      → Reaches filename done partial (disk_of (handed draw dumps n l))
  unfolding handed hand_out
  handed-Reaches n l done partial h = hands_out n h

  settled-Reaches :
      (n : ℕ) (results : List (Result F)) (l : Ledger F W) (done : List Batch) (partial : Bytes)
      → contains (committed_ids (disk_of l)) n ≡ false
      → Reaches filename done partial (disk_of l)
      → Reaches filename
          (done
            ++ record {
              chunk_id = n;
              output = partial ++ lines dumps (matched_only results);
              count = length (matched_only results);
            }
              ∷ [])
          []
          (disk_of (settled draw dumps n results l))
  unfolding settled grow confirm
  settled-Reaches n results l done partial new h =
      commits n (length (matched_only results)) new (writes (lines dumps (matched_only results)) h)

  -- nothing committed since
  unchanged :
      (s : Pulls F) (r : Except (Unit {0})) (l l' : Ledger F W) (done : List Batch)
      (partial : Bytes)
      → (r ≡ ok tt → ids_of s ≡ [])
      → l'.totals ≡ l.totals
      → Reaches filename done partial (disk_of l')
      → Advanced done partial s r l l'
  unchanged s r l l' done partial all e h = record {
    more = [];
    rest = partial;
    reached = subst (λ bs. Reaches filename bs partial (disk_of l')) (sym (append-nil done)) h;
    left = ids_of s;
    in_order = refl;
    complete = all;
    leftover = refl;
    chunks = omega (arith, ap (λ t. t.chunks) e);
    matched = omega (arith, ap (λ t. t.matched) e);
  }

  -- the batch that the run began with, in front of the others
  in_front :
      (s : Pulls F) (r : Except (Unit {0})) (l l₁ l' : Ledger F W) (done : List Batch)
      (partial : Bytes) (b : Batch) (tasks : List (Task F))
      → l₁.totals.chunks ≡ l.totals.chunks + 1
      → l₁.totals.matched ≡ l.totals.matched + b.count
      → Advanced (done ++ b ∷ []) [] s r l₁ l'
      → Advanced done partial (item (some (b.chunk_id, tasks)) s) r l l'
  unfolding ids_of
  in_front s r l l₁ l' done partial b tasks one count h = record {
    more = b ∷ h.more;
    rest = h.rest;
    reached =
        subst (λ bs. Reaches filename bs h.rest (disk_of l')) (append_assoc done (b ∷ []) h.more)
          h.reached;
    left = h.left;
    in_order = ap (λ ns. b.chunk_id ∷ ns) h.in_order;
    complete = h.complete;
    leftover = h.leftover ∙ left_of-nil h.more;
    chunks = omega (arith, h.chunks, one);
    matched = omega (arith, h.matched, count);
  }

  committed_ids-snoc :
      (done : List Batch) (partial : Bytes) (b : Batch) (d d' : Disk)
      → Reaches filename done partial d
      → Reaches filename (done ++ b ∷ []) [] d'
      → committed_ids d' ≡ committed_ids d ++ b.chunk_id ∷ []
  committed_ids-snoc done partial b d d' h h' =
      (Reaches-Holds h').listed
      ∙ map-append (λ c. c.chunk_id) done (b ∷ [])
      ∙ ap (λ ns. ns ++ b.chunk_id ∷ []) (sym (Reaches-Holds h).listed)

  -- A run of batches whose ids are new, from the disk of a campaign, ends on a disk that the campaign
  -- reaches too, whatever ends it: some more batches are committed, each of them once, the counters
  -- grow by their number and by the numbers of their results, and they are the first of the batches
  -- that the stream holds, in order, and all of them if the run returns. What was written behind the last commit stays
  -- only if no batch was committed.
  pub Runs-Advanced :
      {s : Pulls F} {l l' : Ledger F W} {r : Except (Unit {0})} (done : List Batch)
      (partial : Bytes)
      → Runs P draw dumps s l r l'
      → AreNew (committed_ids (disk_of l)) s
      → Reaches filename done partial (disk_of l)
      → Advanced done partial s r l l'
  unfolding ids_of AreNew settled handed count_batch
  Runs-Advanced done partial stops new h = unchanged _ _ _ _ done partial (λ _. refl) refl h
  Runs-Advanced done partial (source_fails x) new h =
      unchanged _ _ _ _ done partial (λ e. absurd (ground (arith, e))) refl h
  Runs-Advanced done partial (skips run) new h =
      let a = Runs-Advanced done partial run new h in
      record {
        more = a.more;
        rest = a.rest;
        reached = a.reached;
        left = a.left;
        in_order = a.in_order;
        complete = a.complete;
        leftover = a.leftover;
        chunks = a.chunks;
        matched = a.matched;
      }
  Runs-Advanced done partial (settles {s = s} {l = l} n tasks results same run) new h =
      let b : Batch = record {
        chunk_id = n;
        output = partial ++ lines dumps (matched_only results);
        count = length (matched_only results);
      } in
      let l₁ = handed draw dumps n l in
      let h₁ = handed-Reaches n l done partial h in
      let same_ids : committed_ids (disk_of l₁) ≡ committed_ids (disk_of l) =
        (Reaches-Holds h₁).listed ∙ sym (Reaches-Holds h).listed in
      let new₁ = subst (λ ns. contains ns n ≡ false) (sym same_ids) new.0 in
      let h₂ = settled-Reaches n results l₁ done partial new₁ h₁ in
      let grown : committed_ids (disk_of (settled draw dumps n results l₁))
          ≡ committed_ids (disk_of l) ++ n ∷ [] =
        committed_ids-snoc done partial b _ _ h₁ h₂ ∙ ap (λ ns. ns ++ n ∷ []) same_ids in
      in_front _ _ _ _ _ done partial b tasks refl refl
        (Runs-Advanced (done ++ b ∷ []) [] run (subst (λ ns. AreNew ns s) (sym grown) new.1) h₂)
  Runs-Advanced done partial (batch_fails {l = l} n tasks x f) new h =
      unchanged _ _ _ _ done partial (λ e. absurd (ground (arith, e))) refl
        (handed-Reaches n l done partial h)
