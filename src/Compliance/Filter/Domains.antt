-- ===== src/Compliance/Filter/Domains.antt =====
-- The domain lists of src/bulk_http/compliance/filter.py: hosts and their subdomains.
use Prim.Native.String.{◌++◌}
use bulk_http.Prelude.{
  String, true, Option, List, [], ◌∷◌, ◌≡◌, ◌↔◌, ◌⊎◌, inl, inr, refl, sym, subst, arith, Bool-cases,
  ◌==◌, string_keys, any,
}
use bulk_http.Dict.Laws.{eq_refl}
use bulk_http.Except.{Except, ok}
use bulk_http.Config.{or_default}
use bulk_http.Texts.Suffix.{ends_with_suffix, suffix_ends_with, or_right}
use bulk_http.Compliance.Filter.{
  ComplianceFilter, host_matches, host_allowed, on_allowlist, is_allowed,
}

-- an entry of a list covers itself and every host below it
pub data Covers (entry : String) : String → Type 0 where
  itself : Covers entry entry
  below : (p : String) → Covers entry (p ++ ("." ++ entry))

host_matches-Covers : (host entry : String) → host_matches host entry ≡ true → Covers entry host
unfolding host_matches
host_matches-Covers host entry h = elim (Bool-cases (host == entry)) [
  | inl e ↦ subst (λ x. Covers x host) ((string_keys.same_iff host entry).0 e) itself
  | inr e ↦
      let (p, at) = ends_with_suffix host ("." ++ entry) (ground arith) in
      subst (Covers entry) (sym at) (below p)
]

Covers-host_matches : {entry host : String} → Covers entry host → host_matches host entry ≡ true
unfolding host_matches
Covers-host_matches {entry = entry} itself = rw (eq_refl entry)
Covers-host_matches {entry = entry} (below p) =
    or_right ((p ++ ("." ++ entry)) == entry) (suffix_ends_with p ("." ++ entry))

-- some entry of the list covers the host
pub data Listed (host : String) : List String → Type 0 where
  first : {entry : String} {rest : List String} → Covers entry host → Listed host (entry ∷ rest)
  later : {entry : String} {rest : List String} → Listed host rest → Listed host (entry ∷ rest)

any-Listed : (host : String) (es : List String) → any (host_matches host) es ≡ true → Listed host es
any-Listed host [] h = absurd (ground arith)
any-Listed host (e ∷ es) h = elim (Bool-cases (host_matches host e)) [
  | inl m ↦ first (host_matches-Covers host e m)
  | inr m ↦ later (any-Listed host es (ground arith))
]

Listed-any : {host : String} {es : List String} → Listed host es → any (host_matches host) es ≡ true
Listed-any (first c) = rw (Covers-host_matches c)
Listed-any {host = host} (later {entry = e} l) = or_right (host_matches host e) (Listed-any l)

allowlist_of :
    (es : List String) (host : String) → on_allowlist es host ≡ true → (es ≡ []) ⊎ Listed host es
unfolding on_allowlist
allowlist_of [] host h = inl refl
allowlist_of (e ∷ es) host h = inr (any-Listed host (e ∷ es) h)

of_allowlist :
    (es : List String) (host : String) → (es ≡ []) ⊎ Listed host es → on_allowlist es host ≡ true
unfolding on_allowlist
of_allowlist [] host h = refl
of_allowlist (e ∷ es) host (inl h) = absurd cc
of_allowlist (e ∷ es) host (inr l) = Listed-any l

-- not on the denylist, and on the allowlist if that has entries
pub Permitted : ComplianceFilter → String → Type 0
Permitted f host = (Listed host f.denylist → ⊥) × ((f.allowlist ≡ []) ⊎ Listed host f.allowlist)

module _ (f : ComplianceFilter) (host : String) where
  host_allowed-Permitted : host_allowed f host ≡ true → Permitted f host
  unfolding host_allowed Permitted
  host_allowed-Permitted h = elim (Bool-cases (any (host_matches host) f.denylist)) [
    | inl e ↦ absurd (ground arith)
    | inr e ↦ (
      λ l. absurd (ground (arith, e, Listed-any l)),
      allowlist_of f.allowlist host (ground arith),
    )
  ]

  Permitted-host_allowed : Permitted f host → host_allowed f host ≡ true
  unfolding host_allowed Permitted
  Permitted-host_allowed (d, a) = elim (Bool-cases (any (host_matches host) f.denylist)) [
    | inl e ↦ absurd (d (any-Listed host f.denylist e))
    | inr e ↦ rw (e, of_allowlist f.allowlist host a)
  ]

-- A URL with a host that can be read is allowed exactly when the denylist covers its host neither
-- itself nor by a parent domain, and the allowlist is empty or covers it; deny goes first.
pub is_allowed-Permitted :
    (hostname : String → Except (Option String)) (f : ComplianceFilter) (url : String)
    (host : Option String)
    → hostname url ≡ ok host
    → (is_allowed hostname f url ≡ ok true) ↔ Permitted f (or_default host "")
unfolding is_allowed
is_allowed-Permitted hostname f url host h = (
  λ e. host_allowed-Permitted f (or_default host "") (ground arith),
  λ p. rw (h, Permitted-host_allowed f (or_default host "") p),
)
