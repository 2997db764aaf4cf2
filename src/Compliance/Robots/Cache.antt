-- ===== src/Compliance/Robots/Cache.antt =====
-- The cache of src/bulk_http/compliance/robots_gate.py.
use Prim.Native.String.{◌++◌}
use bulk_http.Prelude.{String, Option, none, some, ◌≡◌, refl, ap, sym, ◌∙◌, string_keys}
use bulk_http.Except.{Except, ok, raise}
use bulk_http.Effects.{◌then◌, lift}
use bulk_http.Floats.{Floats}
use bulk_http.Dict.{get}
use bulk_http.Dict.Laws.{get-put_self}
use bulk_http.Compliance.Robots.{
  store_parser, Robots, AsyncRobotsGate, fetch_parser, cached_parser, parser_at, parser_of, parsed,
}

module _ {F : Floats} (R : Robots F) where
  store_parser-get :
      (origin : String) (content : Except (Option String)) (g g' : AsyncRobotsGate R)
      (p : Option R.Parser)
      → store_parser R origin content g ≡ (ok p, g')
      → get origin g'.cache ≡ some p
  unfolding store_parser
  store_parser-get origin (raise x) g g' p h = absurd cc
  store_parser-get origin (ok content) g g' p h =
      let same : parsed R content ≡ p = cc in
      ap (λ s. get origin s.1.cache) (sym h)
      ∙ get-put_self origin (parsed R content) g.cache
      ∙ ap some same

  cached_parser-get :
      (origin : String) (o : Option (Option R.Parser)) (g g' : AsyncRobotsGate R)
      (p : Option R.Parser)
      → get origin g.cache ≡ o
      → cached_parser R o origin g ≡ (ok p, g')
      → get origin g'.cache ≡ some p
  unfolding cached_parser fetch_parser lift
  cached_parser-get origin none g g' p e h =
      let (content, w) = R.fetch (origin ++ "/robots.txt") g.world in
      store_parser-get origin content (record g { world = w }) g' p h
  cached_parser-get origin (some q) g g' p e h =
      let same : q ≡ p = cc in ap (λ s. get origin s.1.cache) (sym h) ∙ e ∙ ap some same

  parser_at-get :
      (origin : String) (g g' : AsyncRobotsGate R) (p : Option R.Parser)
      → parser_at R origin g ≡ (ok p, g')
      → get origin g'.cache ≡ some p
  unfolding parser_at
  parser_at-get origin g g' p h = cached_parser-get origin (get origin g.cache) g g' p refl h

  parser_at-again :
      (origin : String) (g g' : AsyncRobotsGate R) (p : Option R.Parser)
      → parser_at R origin g ≡ (ok p, g')
      → parser_at R origin g' ≡ (ok p, g')
  unfolding parser_at cached_parser lift
  parser_at-again origin g g' p h = rw (parser_at-get origin g g' p h)

  parser_of_origin :
      (url origin : String) (g : AsyncRobotsGate R)
      → R.origin url ≡ ok origin
      → parser_of R url g ≡ parser_at R origin g
  unfolding parser_of ◌then◌ lift
  parser_of_origin url origin g o = rw o

  -- Once the parser of a URL was found, every URL of the same origin gets the same parser, and the
  -- fetcher is not called again.
  pub parser_of-again :
      (url other origin : String) (g g' : AsyncRobotsGate R) (p : Option R.Parser)
      → R.origin url ≡ ok origin
      → R.origin other ≡ ok origin
      → parser_of R url g ≡ (ok p, g')
      → parser_of R other g' ≡ (ok p, g')
  parser_of-again url other origin g g' p o o' h =
      parser_of_origin other origin g' o'
      ∙ parser_at-again origin g g' p (sym (parser_of_origin url origin g o) ∙ h)
