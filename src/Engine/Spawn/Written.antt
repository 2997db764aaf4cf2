-- ===== src/Engine/Spawn/Written.antt =====
-- The lines that a worker of src/bulk_http/engine/spawn.py writes, up to a result that cannot be
-- serialized.
use bulk_http.Prelude.{
  ℕ, ◌+◌, ◌≡◌, refl, ap, sym, ◌∙◌, arith, subst, List, [], ◌∷◌, ◌++◌, length, append-nil,
  append_assoc, inl, inr, Bool-cases,
}
use bulk_http.Except.{Error, Except, ok, raise, Except-cases}
use bulk_http.Floats.{Floats}
use bulk_http.Bytes.{Bytes, newline}
use bulk_http.Value.{Value}
use bulk_http.Models.{Result}
use bulk_http.Sinks.Serialize.{payload}
use bulk_http.Sinks.Ndjson.{Sink, write_bytes}
use bulk_http.Sinks.Ndjson.Buffering.{taken, write_bytes_lem}
use bulk_http.Engine.Executor.Ledger.{matched_only}
use bulk_http.Engine.Spawn.{line_or_raise, write_or_raise}

module _ {F : Floats} (dumps : Value F → Except Bytes) where
  -- one line for each result, of the text that dumps gives for it
  unfoldable pub AreLines : List (Result F) → Bytes → Type 0
  AreLines [] bs = bs ≡ []
  AreLines (r ∷ rs) bs =
      (text : Bytes) × (rest : Bytes) × (dumps (payload r) ≡ ok text)
      × (bs ≡ (text ++ newline ∷ []) ++ rest)
      × AreLines rs rest

  -- The writing broke off with `x`: dumps raises it for a result, and what was taken before,
  -- `grown`, has the lines of those in front of it.
  pub BreaksOff : List (Result F) → Bytes → Bytes → Error → Type 0
  BreaksOff rs old grown x =
      (before : List (Result F)) × (bad : Result F) × (after : List (Result F)) × (bs : Bytes) × (rs
        ≡ before ++ bad ∷ after)
      × (dumps (payload bad) ≡ raise x)
      × AreLines before bs
      × (grown ≡ old ++ bs)

  -- what the writing comes to
  unfoldable pub Writes : ℕ → List (Result F) → Bytes → Except ℕ × Sink → Type 0
  Writes count rs old (ok n, k) =
      (bs : Bytes) × (n ≡ count + length rs) × AreLines rs bs × (taken k ≡ old ++ bs)
  Writes count rs old (raise x, k) = BreaksOff rs old (taken k) x

  -- a line in front of what is written behind it
  Writes-line :
      (count : ℕ) (r : Result F) (rs : List (Result F)) (old text : Bytes) (out : Except ℕ × Sink)
      → dumps (payload r) ≡ ok text
      → Writes (count + 1) rs (old ++ (text ++ newline ∷ [])) out
      → Writes count (r ∷ rs) old out
  unfolding Writes AreLines BreaksOff
  Writes-line count r rs old text (ok n, k) e (bs, many, lines, all) = (
    (text ++ newline ∷ []) ++ bs,
    omega (arith, many),
    (text, bs, e, refl, lines),
    all ∙ append_assoc old (text ++ newline ∷ []) bs,
  )
  Writes-line count r rs old text (raise x, k) e
        (before, bad, after, bs, cut, bad_one, lines, all) =
      (
        r ∷ before,
        bad,
        after,
        (text ++ newline ∷ []) ++ bs,
        ap (◌∷◌ r) cut,
        bad_one,
        (text, bs, e, refl, lines),
        all ∙ append_assoc old (text ++ newline ∷ []) bs,
      )

  line_ok :
      (r : Result F) (text : Bytes)
      → dumps (payload r) ≡ ok text
      → line_or_raise dumps r ≡ ok (text ++ newline ∷ [])
  unfolding line_or_raise
  line_ok r text e = rw (line_or_raise, e) refl

  line_raise :
      (r : Result F) (x : Error) → dumps (payload r) ≡ raise x → line_or_raise dumps r ≡ raise x
  unfolding line_or_raise
  line_raise r x e = rw (line_or_raise, e) refl

  pub write_or_raise-Writes :
      (count : ℕ) (k : Sink) (rs : List (Result F))
      → Writes count (matched_only rs) (taken k) (write_or_raise dumps count k rs)
  unfolding write_or_raise Writes AreLines BreaksOff
  write_or_raise-Writes count k [] = ([], omega arith, refl, sym (append-nil (taken k)))
  write_or_raise-Writes count k (r ∷ rs) = elim (Bool-cases r.matched) [
    | inr skipped ↦ rw skipped (write_or_raise-Writes count k rs)
    | inl taken_in ↦ elim (Except-cases (dumps (payload r))) [
      | inl (text, e) ↦
          let line = text ++ newline ∷ [] in
          rw (taken_in, line_ok r text e)
            (Writes-line count r (matched_only rs) (taken k) text _ e (
              subst
                (λ old.
                  Writes (count + 1) (matched_only rs) old
                    (write_or_raise dumps (count + 1) (write_bytes k line) rs))
                (write_bytes_lem k line).0
                (write_or_raise-Writes (count + 1) (write_bytes k line) rs)))
      | inr (x, e) ↦
          rw (taken_in, line_raise r x e)
            ([], r, matched_only rs, [], refl, e, refl, sym (append-nil (taken k)))
    ]
  ]

  pub write_or_raise-flush_bytes :
      (count : ℕ) (k : Sink) (rs : List (Result F))
      → (write_or_raise dumps count k rs).1.flush_bytes ≡ k.flush_bytes
  unfolding write_or_raise
  write_or_raise-flush_bytes count k [] = refl
  write_or_raise-flush_bytes count k (r ∷ rs) = elim (Bool-cases r.matched) [
    | inr skipped ↦ rw skipped (write_or_raise-flush_bytes count k rs)
    | inl taken_in ↦ elim (Except-cases (line_or_raise dumps r)) [
      | inl (line, e) ↦
          rw (write_or_raise, taken_in, e)
            (write_or_raise-flush_bytes (count + 1) (write_bytes k line) rs
              ∙ (write_bytes_lem k line).1)
      | inr (x, e) ↦ rw (write_or_raise, taken_in, e) refl
    ]
  ]
