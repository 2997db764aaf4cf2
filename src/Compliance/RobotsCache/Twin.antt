-- ===== src/Compliance/RobotsCache/Twin.antt =====
-- The cache of src/bulk_http/compliance/robots.py against the gate of robots_gate.py.
use Prim.Native.String.{◌++◌}
use bulk_http.Prelude.{
  ◌≡◌, refl, ap, ◌∙◌, String, Bool, Option, none, some, inl, inr, Option-cases, string_keys,
}
use bulk_http.Except.{Except, ok, raise, Except-cases}
use bulk_http.Effects.{◌then◌, lift, Stateful-cases}
use bulk_http.Floats.{Floats}
use bulk_http.Dict.{get}
use bulk_http.Compliance.Robots.{
  Robots, AsyncRobotsGate, parser_of, parser_at, cached_parser, fetch_parser, store_parser,
  allowed_url, may_fetch,
}
use bulk_http.Compliance.RobotsCache.{
  RobotsCache, keep_parser, parser_for_origin, parser_for, can_fetch_url,
}

module _ {F : Floats} (R : Robots F) where
  -- the cache in a gate
  abbrev pub cache_of : AsyncRobotsGate R → RobotsCache R
  cache_of g = record { user_agent = g.user_agent; cache = g.cache; world = g.world }

  abbrev pub forget {ℓ} : {A : Type ℓ} → Except A × AsyncRobotsGate R → Except A × RobotsCache R
  forget out = (out.0, cache_of out.1)

  store_parser-keep_parser :
      (origin : String) (content : Except (Option String)) (g : AsyncRobotsGate R)
      → keep_parser R origin content (cache_of g) ≡ forget (store_parser R origin content g)
  unfolding keep_parser store_parser
  store_parser-keep_parser origin (raise x) g = refl
  store_parser-keep_parser origin (ok none) g = refl
  store_parser-keep_parser origin (ok (some content)) g = refl

  parser_at-parser_for :
      (origin : String) (g : AsyncRobotsGate R)
      → parser_for_origin R origin (cache_of g) ≡ forget (parser_at R origin g)
  unfolding parser_for_origin parser_at cached_parser fetch_parser lift
  parser_at-parser_for origin g = elim (Option-cases (get origin g.cache)) [
    | inl e ↦
        let (content, w) = R.fetch (origin ++ "/robots.txt") g.world in
        rw (e, parser_for_origin, parser_at)
          (store_parser-keep_parser origin content (record g { world = w }))
    | inr (p, e) ↦ rw (e, parser_for_origin, parser_at) refl
  ]

  parser_of-parser_for :
      (url : String) (g : AsyncRobotsGate R)
      → parser_for R url (cache_of g) ≡ forget (parser_of R url g)
  unfolding parser_for parser_of lift ◌then◌
  parser_of-parser_for url g = elim (Except-cases (R.origin url)) [
    | inl (origin, e) ↦ rw (e, parser_for, parser_of) (parser_at-parser_for origin g)
    | inr (x, e) ↦ rw (e, parser_for, parser_of) refl
  ]

  -- the two answers, from a parser that was looked up
  abbrev answer : String → Except (Option R.Parser) × RobotsCache R → Except Bool × RobotsCache R
  answer url out = elim out.0 [
    | ok p ↦ (ok (may_fetch R out.1.user_agent url p), out.1)
    | raise x ↦ (raise x, out.1)
  ]

  abbrev gate_answer :
      String → Except (Option R.Parser) × AsyncRobotsGate R → Except Bool × AsyncRobotsGate R
  gate_answer url out = elim out.0 [
    | ok p ↦ (ok (may_fetch R out.1.user_agent url p), out.1)
    | raise x ↦ (raise x, out.1)
  ]

  answer-forget :
      (url : String) (out : Except (Option R.Parser) × AsyncRobotsGate R)
      → answer url (forget out) ≡ forget (gate_answer url out)
  answer-forget url (ok p, g) = refl
  answer-forget url (raise x, g) = refl

  can_fetch_url-answer :
      (url : String) (c : RobotsCache R) → can_fetch_url R url c ≡ answer url (parser_for R url c)
  unfolding can_fetch_url ◌then◌ lift
  can_fetch_url-answer url c = elim (Stateful-cases (parser_for R url c)) [
    | inl (none, c', e) ↦ rw e refl
    | inl (some p, c', e) ↦ rw e refl
    | inr (x, c', e) ↦ rw e refl
  ]

  -- The cache that does not await its fetcher gives the answers of the gate: from the same entries,
  -- `can_fetch` returns or raises what `allowed` does, fetches the same files, and leaves the same
  -- entries.
  pub can_fetch_url-allowed_url :
      (url : String) (g : AsyncRobotsGate R)
      → can_fetch_url R url (cache_of g) ≡ forget (allowed_url R url g)
  unfolding allowed_url ◌then◌
  can_fetch_url-allowed_url url g =
      can_fetch_url-answer url (cache_of g)
      ∙ ap (answer url) (parser_of-parser_for url g)
      ∙ answer-forget url (parser_of R url g)
