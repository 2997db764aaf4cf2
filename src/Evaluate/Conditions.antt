-- ===== src/Evaluate/Conditions.antt =====
-- The conditions on a response that src/bulk_http/evaluate/pipeline.py joins.
use bulk_http.Prelude.{
  ℕ, String, Bool, true, false, Option, none, some, List, [], ◌∷◌, ◌++◌, ◌≡◌, ◌≢◌, ◌↔◌, ◌⊎◌, inl,
  inr, refl, ap, sym, subst, arith, Bool-cases, not, any, ◌&&◌, if◌then◌else◌, nat_beq, nat_beq_iff,
}
use bulk_http.Prelude.Int.{ℤ, pos, negsuc}
use bulk_http.Except.{Except-cases, ok}
use bulk_http.Floats.{Floats}
use bulk_http.Dict.{Dict}
use bulk_http.Value.{Meta}
use bulk_http.Bytes.{Bytes}
use bulk_http.Config.{or_default}
use bulk_http.Models.{Expected, exactly, one_of, EvalContext}
use bulk_http.Decompress.{decompress_fragment}
use bulk_http.Evaluate.{
  Libraries, same_int, status_matches, is_nil, new_matcher, search_needles, build_context, evaluate,
  Predicate, apply_predicate,
}

-- A status satisfies a constraint: there is none, or it is the status, or it lists it.
pub data Satisfies : Option ℕ → Option Expected → Type 0 where
  free : {s : Option ℕ} → Satisfies s none
  equal : (n : ℕ) → Satisfies (some n) (some (exactly (pos n)))
  listed :
      (n : ℕ) (before after : List ℤ) → Satisfies (some n) (some (one_of (before ++ pos n ∷ after)))

same_int_iff : (n : ℕ) (z : ℤ) → same_int n z ≡ true → z ≡ pos n
same_int_iff n (pos m) h = ap pos (sym ((nat_beq_iff n m).0 h))
same_int_iff n (negsuc m) h = absurd (ground arith)

nat_beq_refl : (n : ℕ) → nat_beq n n ≡ true
nat_beq_refl n = (nat_beq_iff n n).1 refl

any_same :
    (n : ℕ) (zs : List ℤ)
    → any (same_int n) zs ≡ true
    → (before : List ℤ) × (after : List ℤ) × (zs ≡ before ++ pos n ∷ after)
any_same n [] h = absurd (ground arith)
any_same n (z ∷ zs) h = elim (Bool-cases (same_int n z)) [
  | inl e ↦ ([], zs, rw (same_int_iff n z e))
  | inr e ↦
      let (before, after, at) = any_same n zs (ground arith) in (z ∷ before, after, ap (◌∷◌ z) at)
]

any_listed : (n : ℕ) (before after : List ℤ) → any (same_int n) (before ++ pos n ∷ after) ≡ true
any_listed n [] after = rw (nat_beq_refl n)
any_listed n (z ∷ before) after = ground (arith, any_listed n before after)

status_satisfies : (s : Option ℕ) (e : Option Expected) → status_matches s e ≡ true → Satisfies s e
unfolding status_matches
status_satisfies s none h = free
status_satisfies none (some e) h = absurd (ground arith)
status_satisfies (some n) (some (exactly z)) h =
    subst (λ z. Satisfies (some n) (some (exactly z))) (sym (same_int_iff n z h)) (equal n)
status_satisfies (some n) (some (one_of zs)) h =
    let (before, after, at) = any_same n zs h in
    subst (λ zs. Satisfies (some n) (some (one_of zs))) (sym at) (listed n before after)

satisfied_matches : {s : Option ℕ} {e : Option Expected} → Satisfies s e → status_matches s e ≡ true
unfolding status_matches
satisfied_matches free = refl
satisfied_matches (equal n) = nat_beq_refl n
satisfied_matches (listed n before after) = any_listed n before after

unmet : (ns ms : List String) → Bool
unmet ns ms = not (is_nil ns) && not (if is_nil ns then false else not (is_nil ms))

unmet_no : (ns ms : List String) → unmet ns ms ≡ false → (ns ≡ []) ⊎ (ms ≢ [])
unfolding unmet
unmet_no [] ms h = inl refl
unmet_no (n ∷ ns) [] h = absurd (ground arith)
unmet_no (n ∷ ns) (m ∷ ms) h = inr λ e. cc

met : (ns ms : List String) → (ns ≡ []) ⊎ (ms ≢ []) → unmet ns ms ≡ false
unfolding unmet
met [] ms h = refl
met (n ∷ ns) (m ∷ ms) h = refl
met (n ∷ ns) [] (inl h) = absurd cc
met (n ∷ ns) [] (inr h) = absurd (h refl)

module _ {F : Floats} (L : Libraries F) (status : Option ℕ) (url : String)
    (headers : Dict String String) (fragment : Bytes) (encoding : Option String)
    (needles : List String) (expected : Option Expected) (predicate : Predicate L)
    (meta : Meta F) where
  -- the predicate, where there is one, accepts the context that is built, and that is returned
  Accepted : Predicate L → Bytes → Option (EvalContext F L.Dom) → Type 0
  Accepted none decoded c = c ≡ none
  Accepted (some p) decoded c =
      (ctx : EvalContext F L.Dom) × (build_context L (or_default status 0) url headers decoded meta
        ≡ ok ctx)
      × (p ctx ≡ ok true)
      × (c ≡ some ctx)

  -- some needle occurs, or there are none to look for
  Found : Bytes → Type 0
  Found decoded =
      (needles ≡ []) ⊎ (L.matches (L.make_automaton needles) (L.decode_text decoded) ≢ [])

  pub MatchesAll : Option (EvalContext F L.Dom) → Type 0
  MatchesAll c =
      Satisfies status expected
      × (decoded : Bytes) × (decompress_fragment L.codecs L.texts fragment encoding ≡ ok decoded)
      × Found decoded
      × Accepted predicate decoded c

  hits : Bytes → List String
  hits decoded = L.matches (L.make_automaton needles) (L.decode_text decoded)

  apply_predicate-Accepted :
      (p : Predicate L) (decoded : Bytes) (c : Option (EvalContext F L.Dom))
      → apply_predicate L p status url headers decoded meta ≡ ok (true, c)
      → Accepted p decoded c
  unfolding apply_predicate Accepted
  apply_predicate-Accepted none decoded c h = ground arith
  apply_predicate-Accepted (some p) decoded c h =
      elim (Except-cases (build_context L (or_default status 0) url headers decoded meta)) [
        | inr (x, e) ↦ absurd (ground (arith, e))
        | inl (ctx, e) ↦ elim (Except-cases (p ctx)) [
          | inr (x, e') ↦ absurd (ground (arith, e, e'))
          | inl (v, e') ↦ (ctx, e, ground (arith, e, e'), ground (arith, e, e'))
        ]
      ]

  Accepted-apply_predicate :
      (p : Predicate L) (decoded : Bytes) (c : Option (EvalContext F L.Dom))
      → Accepted p decoded c
      → apply_predicate L p status url headers decoded meta ≡ ok (true, c)
  unfolding apply_predicate Accepted
  Accepted-apply_predicate none decoded c e = rw e
  Accepted-apply_predicate (some p) decoded c (ctx, b, v, e) = rw (b, v, e)

  matches_all :
      (c : Option (EvalContext F L.Dom))
      → evaluate L status url headers fragment encoding
          (new_matcher L needles)
          expected
          predicate
          meta
        ≡ ok (true, c)
      → MatchesAll c
  unfolding evaluate unmet hits MatchesAll Found new_matcher search_needles
  matches_all c h = elim (Bool-cases (status_matches status expected)) [
    | inr n ↦ absurd (ground arith)
    | inl s ↦
        let satisfied = status_satisfies status expected s in
        elim (Except-cases (decompress_fragment L.codecs L.texts fragment encoding)) [
          | inr (x, e) ↦ absurd (ground arith)
          | inl (decoded, e) ↦ elim (Bool-cases (unmet needles (hits decoded))) [
            | inl u ↦ absurd (ground arith)
            | inr u ↦ (
              satisfied,
              decoded,
              e,
              unmet_no needles (hits decoded) u,
              apply_predicate-Accepted predicate decoded c (ground arith),
            )
          ]
        ]
  ]

  all_match :
      (c : Option (EvalContext F L.Dom))
      → MatchesAll c
      → evaluate L status url headers fragment encoding
          (new_matcher L needles)
          expected
          predicate
          meta
        ≡ ok (true, c)
  unfolding evaluate MatchesAll Found new_matcher search_needles unmet hits
  all_match c (s, decoded, d, found, accepted) = rw (
    satisfied_matches s,
    d,
    met needles (hits decoded) found,
    Accepted-apply_predicate predicate decoded c accepted,
  )

  -- A response matches exactly when the status satisfies the constraint on it, the body can be
  -- decompressed, a needle occurs in what comes of that, where there are needles, and the
  -- predicate, where there is one, accepts its context, which is then returned.
  pub evaluate-MatchesAll :
      (c : Option (EvalContext F L.Dom))
      → (evaluate L status url headers fragment encoding
            (new_matcher L needles)
            expected
            predicate
            meta
          ≡ ok (true, c))
        ↔ MatchesAll c
  evaluate-MatchesAll c = (matches_all c, all_match c)
