-- ===== src/Engine/Spawn/Fleet/Durable.antt =====
-- What the files of the workers hold on any disk of a campaign, and what a resume leaves of them.
use bulk_http.Prelude.{
  ℕ, ◌<◌, ◌≡◌, refl, ap, ap₂, sym, ◌∙◌, subst, arith, String, true, false, List, [], ◌∷◌, ◌++◌,
  contains, nat_keys, string_keys, All, All-append, append-nil, nat_beq_iff,
}
use mathlib.Core.List.{map-append}
use bulk_http.Dict.{keys, get}
use bulk_http.Dict.Laws.{keys-put}
use bulk_http.Checkpoint.Store.{distributed_entry}
use bulk_http.Checkpoint.Store.Loading.{replay, replay_from, apply_entry}
use bulk_http.Checkpoint.Resume.{truncate}
use bulk_http.Engine.Campaign.{Batch}
use bulk_http.Engine.Campaign.Durable.{contains-append, truncate-first}
use bulk_http.Engine.Spawn.Fleet.{
  Message, Fleet, submit, spill, finish, gather, reboot, message_ids, Sails, launch, submits,
  spills, finishes, gathers, reboots,
}
use bulk_http.Engine.Spawn.Fleet.Keeps.{
  outputs_of, reported, done_ids, IsRising, Keeps, replay-snoc, IsRising-snoc, submit-Keeps,
  spill-Keeps, finish-Keeps,
}
use bulk_http.Engine.Spawn.Fleet.Gathering.{first_message, gather-Keeps}

pub record Holds (done : List (String × Batch)) (f : Fleet) : Type 0 where
  pub listed : keys (replay f.manifest).committed ≡ done_ids done
  pub in_order : IsRising f.queue
  pub fresh : All (λ n. contains (done_ids done) n ≡ false) f.queue
  pub workers : (w : String) → Keeps done f w

submit-Holds :
    (done : List (String × Batch)) (f : Fleet) (n : ℕ)
    → All (λ m. m < n) f.queue
    → contains (done_ids done) n ≡ false
    → Holds done f
    → Holds done (submit n f)
unfolding submit apply_entry
submit-Holds done f n last new h = record {
  listed = ap (λ s. keys s.committed) (replay-snoc f.manifest (distributed_entry n)) ∙ h.listed;
  in_order = IsRising-snoc f.queue n h.in_order last;
  fresh = All-append (λ k. contains (done_ids done) k ≡ false) f.queue (n ∷ []) h.fresh (new, tt);
  workers = λ w. submit-Keeps done f n w (h.workers w);
}

-- behind the committed id, the others stay fresh
fresh_behind :
    (ids : List ℕ) (n : ℕ) (queue : List ℕ)
    → All (λ k. n < k) queue
    → All (λ k. contains ids k ≡ false) queue
    → All (λ k. contains (ids ++ n ∷ []) k ≡ false) queue
fresh_behind ids n [] a h = tt
fresh_behind ids n (k ∷ queue) a h = (
  ground (arith, contains-append ids (n ∷ []) k, nat_beq_iff n k, a.0, h.0),
  fresh_behind ids n queue a.1 h.1,
)

module _ (done : List (String × Batch)) (f : Fleet) (w : String) (m : Message)
    (behind : List Message) (queue : List ℕ) (first : f.queue ≡ m.batch.chunk_id ∷ queue)
    (there : f.waiting w ≡ m ∷ behind) (h : Holds done f) where
  gather-Holds : Holds (done ++ (w, m.batch) ∷ []) (gather w m behind queue f)
  unfolding gather apply_entry
  gather-Holds =
      let rising = subst IsRising first h.in_order in
      let fresh = subst (All (λ k. contains (done_ids done) k ≡ false)) first h.fresh in
      let snoc : done_ids (done ++ (w, m.batch) ∷ []) ≡ done_ids done ++ m.batch.chunk_id ∷ [] =
        map-append (λ e. e.1.chunk_id) done ((w, m.batch) ∷ []) in
      record {
        listed =
            ap (λ s. keys s.committed) (replay-snoc f.manifest _)
            ∙ ground (
              arith,
              keys-put m.batch.chunk_id
                  (record {
                    chunk_id = m.batch.chunk_id;
                    worker_file = w;
                    offset = m.offset;
                    count = m.batch.count;
                  })
                  (replay f.manifest).committed,
              fresh.0,
              h.listed,
              snoc,
            );
        in_order = rising.1;
        fresh =
            subst (λ ids. All (λ k. contains ids k ≡ false) queue) (sym snoc)
              (fresh_behind (done_ids done) m.batch.chunk_id queue rising.0 fresh.1);
        workers = gather-Keeps done f w m behind queue first there h.workers;
      }

reboot-Keeps :
    (owner : ℕ → String) (done : List (String × Batch)) (f : Fleet) (w : String)
    → Keeps done f w
    → Keeps done (reboot owner f) w
unfolding reboot
reboot-Keeps owner done f w h = record {
  content =
      ap₂ truncate h.offset h.content
      ∙ truncate-first (outputs_of w done) (reported (f.waiting w) ++ f.partial w)
      ∙ sym (append-nil (outputs_of w done));
  offset = h.offset;
  offsets = tt;
  rising = tt;
  queued = tt;
  owned = tt;
}

-- On every disk that a campaign with several workers reaches, through any interleaving of the
-- workers, crashes and resumes, each worker's file is the output of its committed batches, in the
-- order of their commits, then that of the batches that it reported and the coordinator has not
-- collected, and then what it has written of the next one; the offset in the manifest is where the
-- committed output ends, and the ids that a resume skips are those of the committed batches.
pub Sails-Holds : {done : List (String × Batch)} {f : Fleet} → Sails done f → Holds done f
unfolding replay_from get spill finish reboot
Sails-Holds (launch owner) = record {
  listed = refl;
  in_order = tt;
  fresh = tt;
  workers = λ w. record {
    content = refl;
    offset = refl;
    offsets = tt;
    rising = tt;
    queued = tt;
    owned = tt;
  };
}
Sails-Holds (submits n last new s) = submit-Holds _ _ n last new (Sails-Holds s)
Sails-Holds (spills w bs s) =
    let h = Sails-Holds s in
    record {
      listed = h.listed;
      in_order = h.in_order;
      fresh = h.fresh;
      workers = spill-Keeps _ _ w bs h.workers;
    }
Sails-Holds (finishes w n count here mine last s) =
    let h = Sails-Holds s in
    record {
      listed = h.listed;
      in_order = h.in_order;
      fresh = h.fresh;
      workers = finish-Keeps _ _ w n count here mine last h.workers;
    }
Sails-Holds (gathers {done = done} {f = f} w m before behind queue first there s) =
    let h = Sails-Holds s in
    let keeps = h.workers w in
    let none : before ≡ [] =
      first_message before behind m queue (subst IsRising first h.in_order)
        (subst (λ ms. IsRising (message_ids ms)) there keeps.rising)
        (subst (λ ms. All (λ n. contains (m.batch.chunk_id ∷ queue) n ≡ true) (message_ids ms))
          there
          (subst (λ q. All (λ n. contains q n ≡ true) (message_ids (f.waiting w))) first
            keeps.queued)) in
    subst (λ ms. Holds (done ++ (w, m.batch) ∷ []) (gather w m (ms ++ behind) queue f)) (sym none)
      (gather-Holds done f w m behind queue first (there ∙ ap (λ ms. ms ++ m ∷ behind) none) h)
Sails-Holds (reboots owner e es same s) =
    let h = Sails-Holds s in
    record {
      listed = h.listed;
      in_order = tt;
      fresh = tt;
      workers = λ w. reboot-Keeps owner _ _ w (h.workers w);
    }
