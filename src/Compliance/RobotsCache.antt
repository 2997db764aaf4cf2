-- ===== src/Compliance/RobotsCache.antt =====
-- src/bulk_http/compliance/robots.py: the cache of robots.txt of a fetcher that is not awaited. Its
-- `parser_for` is the code of AsyncRobotsGate._parser.
pub mod Twin
use bulk_http.Prelude.{String, Bool, true, Option, none, some, List, []}
use Prim.Native.String.{◌++◌}
use bulk_http.Prelude.{string_keys}
use bulk_http.Except.{Except, ok, raise}
use bulk_http.Effects.{Stateful, ◌then◌, lift}
use bulk_http.Floats.{Floats}
use bulk_http.Dict.{Dict, get, put}
use bulk_http.Compliance.Robots.{Robots}

pub record RobotsCache {F : Floats} (R : Robots F) : Type 0 where
  pub user_agent : String
  pub cache : Dict String (Option R.Parser)
  pub world : R.World

module _ {F : Floats} (R : Robots F) where
  -- what is stored for an origin, by what the fetcher returned
  unfoldable pub keep_parser :
      String → Except (Option String) → Stateful (RobotsCache R) (Option R.Parser)
  keep_parser origin (raise x) c = (raise x, c)
  keep_parser origin (ok none) c = (ok none, record c { cache = put origin none c.cache })
  keep_parser origin (ok (some content)) c =
      let parser = some (R.parse content) in
      (ok parser, record c { cache = put origin parser c.cache })

  -- RobotsCache._parser_for, behind urlsplit
  unfoldable pub parser_for_origin : String → Stateful (RobotsCache R) (Option R.Parser)
  unfolding keep_parser
  parser_for_origin origin c = elim (get origin c.cache) [
    | some p ↦ (ok p, c)
    | none ↦
        let (content, w) = R.fetch (origin ++ "/robots.txt") c.world in
        keep_parser origin content (record c { world = w })
  ]

  -- RobotsCache._parser_for
  unfoldable pub parser_for : String → Stateful (RobotsCache R) (Option R.Parser)
  unfolding parser_for_origin
  parser_for url = lift (R.origin url) then parser_for_origin

  -- RobotsCache.can_fetch
  unfoldable pub can_fetch_url : String → Stateful (RobotsCache R) Bool
  unfolding parser_for
  can_fetch_url url = parser_for url then λ p c.
      (ok (elim p [ none ↦ true | some parser ↦ R.can_fetch parser c.user_agent url ]), c)

  -- RobotsCache.crawl_delay
  unfoldable pub crawl_delay_of : String → Stateful (RobotsCache R) (Option F.Float)
  unfolding parser_for
  crawl_delay_of url = parser_for url then λ p c.
      (ok (elim p [ none ↦ none | some parser ↦ R.crawl_delay parser c.user_agent ]), c)
