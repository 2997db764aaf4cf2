-- ===== src/Checkpoint/Store/Loading.antt =====
-- Loading the manifest of src/bulk_http/checkpoint/store.py, whole or torn, against the entries.
use bulk_http.Prelude.{
  ◌≡◌, ◌≢◌, refl, ap, sym, subst, ◌∙◌, List, [], ◌∷◌, ◌++◌, arith, append_assoc, append-nil,
  nat_keys, string_keys,
}
use bulk_http.Except.{ok}
use bulk_http.Floats.{Floats}
use bulk_http.Dict.{put}
use bulk_http.Bytes.{Bytes, newline, strip, lines_of}
use bulk_http.Bytes.Lines.{lines_of-line, lines_of-last, strip-line, HasNoNewline}
use bulk_http.Value.{dict}
use bulk_http.Checkpoint.Store.{
  CheckpointState, empty_state, add_to_set, Entry, distributed_entry, committed_entry, encode,
  load_value, load_line, load_lines, load, append_entry,
}
use bulk_http.Checkpoint.Store.Codec.{Json}

-- What an entry means: the effect of its line on the state.
unfoldable pub apply_entry : CheckpointState → Entry → CheckpointState
apply_entry s (distributed_entry n) = record s { distributed = add_to_set n s.distributed }
apply_entry s (committed_entry c) = record {
  distributed = add_to_set c.chunk_id s.distributed;
  committed = put c.chunk_id c s.committed;
  committed_offsets = put c.worker_file c.offset s.committed_offsets;
}

-- The state that a list of entries describes, the first entry first.
unfoldable pub replay_from : CheckpointState → List Entry → CheckpointState
unfolding apply_entry
replay_from s [] = s
replay_from s (e ∷ es) = replay_from (apply_entry s e) es

abbrev pub replay : List Entry → CheckpointState
replay = replay_from empty_state

pub replay_from-append :
    (es es' : List Entry) (s : CheckpointState)
    → replay_from s (es ++ es') ≡ replay_from (replay_from s es) es'
unfolding replay_from
replay_from-append [] es' s = refl
replay_from-append (e ∷ es) es' s = replay_from-append es es' (apply_entry s e)

module _ {F : Floats} (J : Json F) where
  open J use {dumps, loads}

  abbrev pub text_of : Entry → Bytes
  text_of e = dumps (dict (encode e))

  -- the manifest after these entries were appended to an empty file
  unfoldable pub written : List Entry → Bytes
  written [] = []
  written (e ∷ es) = text_of e ++ newline ∷ written es

  load_value-entry :
      (e : Entry) (s : CheckpointState)
      → load_value {F = F} (dict (encode e)) s ≡ ok (apply_entry s e)
  unfolding load_value encode apply_entry
  load_value-entry (distributed_entry n) s = refl
  load_value-entry (committed_entry c) s = refl

  load_line-entry :
      (e : Entry) (s : CheckpointState)
      → load_line loads (text_of e ++ newline ∷ []) s ≡ ok (apply_entry s e)
  unfolding load_line
  load_line-entry e s =
      let braces = J.in_braces e in
      ground (
        arith,
        ap (λ t. strip (t ++ newline ∷ [])) braces,
        strip-line (J.inner e),
        J.loads-dumps e,
        braces,
        load_value-entry e s,
      )

  load_lines-written :
      (es : List Entry) (rest : Bytes) (s : CheckpointState)
      → load_lines loads (lines_of (written es ++ rest)) s
        ≡ load_lines loads (lines_of rest) (replay_from s es)
  unfolding written replay_from load_lines
  load_lines-written [] rest s = refl
  load_lines-written (e ∷ es) rest s = ground (
    arith,
    append_assoc (text_of e) (newline ∷ written es) rest,
    lines_of-line (text_of e) (written es ++ rest) (J.one_line e),
    load_line-entry e s,
    load_lines-written es rest (apply_entry s e),
  )

  -- a torn line changes nothing
  load_line-torn :
      (e : Entry) (p q : Bytes) (s : CheckpointState)
      → p ++ q ≡ text_of e
      → q ≢ []
      → load_line loads p s ≡ ok s
  unfolding load_line
  load_line-torn e p q s h ne = ground (arith, J.loads_torn e p q h ne)

  HasNoNewline-prefix : (p q : Bytes) → HasNoNewline (p ++ q) → HasNoNewline p
  HasNoNewline-prefix [] q h = tt
  HasNoNewline-prefix (c ∷ p) q h = (h.0, HasNoNewline-prefix p q h.1)

  load_lines-torn :
      (e : Entry) (p q : Bytes) (s : CheckpointState)
      → p ++ q ≡ text_of e
      → q ≢ []
      → load_lines loads (lines_of p) s ≡ ok s
  unfolding load_lines lines_of
  load_lines-torn e [] q s h ne = refl
  load_lines-torn e (c ∷ p) q s h ne =
      let clean : HasNoNewline (c ∷ p) =
        HasNoNewline-prefix (c ∷ p) q (subst HasNoNewline (sym h) (J.one_line e)) in
      ground (arith, lines_of-last c p clean, load_line-torn e (c ∷ p) q s h ne)

  pub append_entry-written :
      (es : List Entry) (e : Entry) → append_entry dumps (written es) e ≡ written (es ++ e ∷ [])
  unfolding append_entry written
  append_entry-written [] e = refl
  append_entry-written (x ∷ es) e =
      append_assoc (text_of x) (newline ∷ written es) (text_of e ++ newline ∷ [])
      ∙ ap (λ t. text_of x ++ newline ∷ t) (append_entry-written es e)

  -- After any appends to an empty manifest, and a crash in the middle of one more that left a
  -- proper beginning of its text (or nothing), `load` raises nothing and returns exactly the state
  -- that the completed entries describe.
  pub load-written :
      (es : List Entry) (e : Entry) (p q : Bytes)
      → p ++ q ≡ text_of e
      → q ≢ []
      → load loads (written es ++ p) ≡ ok (replay es)
  unfolding load
  load-written es e p q h ne =
      load_lines-written es p empty_state ∙ load_lines-torn e p q (replay es) h ne

  -- the line that comes of appending behind a torn one
  load_line-glued :
      (e e' : Entry) (p q : Bytes) (s : CheckpointState)
      → p ++ q ≡ text_of e
      → p ≢ []
      → load_line loads ((p ++ text_of e') ++ newline ∷ []) s ≡ ok s
  unfolding load_line
  load_line-glued e e' p q s h ne = ground (arith, J.loads_glued e e' p q h ne)

  HasNoNewline-append : (p q : Bytes) → HasNoNewline p → HasNoNewline q → HasNoNewline (p ++ q)
  HasNoNewline-append [] q h k = k
  HasNoNewline-append (c ∷ p) q h k = (h.0, HasNoNewline-append p q h.1 k)

  pub load_lines-all :
      (es : List Entry) (s : CheckpointState)
      → load_lines loads (lines_of (written es)) s ≡ ok (replay_from s es)
  unfolding load_lines lines_of
  load_lines-all es s =
      ap (λ t. load_lines loads (lines_of t) s) (sym (append-nil (written es)))
      ∙ load_lines-written es [] s

  after_glue :
      (es' : List Entry) (e e' : Entry) (p q : Bytes) (s : CheckpointState)
      → p ++ q ≡ text_of e
      → p ≢ []
      → load_lines loads (lines_of (p ++ written (e' ∷ es'))) s ≡ ok (replay_from s es')
  unfolding written load_lines
  after_glue es' e e' p q s h ne =
      let clean : HasNoNewline (p ++ text_of e') =
        HasNoNewline-append p (text_of e')
          (HasNoNewline-prefix p q (subst HasNoNewline (sym h) (J.one_line e))) (J.one_line e') in
      ground (
        arith,
        append_assoc p (text_of e') (newline ∷ written es'),
        lines_of-line (p ++ text_of e') (written es') clean,
        load_line-glued e e' p q s h ne,
        load_lines-all es' s,
      )

  -- When a crash left a beginning of an entry's text at the end of the manifest, the next entry
  -- that is appended is lost: it shares the torn line, so that `load` passes over it, and only the
  -- entries before the crash and those after the lost one count.
  pub load_loses_first :
      (es es' : List Entry) (e e' : Entry) (p q : Bytes)
      → p ++ q ≡ text_of e
      → p ≢ []
      → load loads (written es ++ (p ++ written (e' ∷ es'))) ≡ ok (replay (es ++ es'))
  unfolding load
  load_loses_first es es' e e' p q h ne =
      load_lines-written es (p ++ written (e' ∷ es')) empty_state
      ∙ after_glue es' e e' p q (replay es) h ne
      ∙ ap ok (sym (replay_from-append es es' empty_state))
