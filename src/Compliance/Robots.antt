-- ===== src/Compliance/Robots.antt =====
-- src/bulk_http/compliance/robots_gate.py: the gate of robots.txt. RobotFileParser, `urlsplit` and
-- the fetcher are parameters. `throttle` is cut where it awaits its sleep, since other calls may run
-- there: `plan_throttle` stands before the sleep, `end_throttle` behind it.
pub mod Cache
pub mod Delays
use Prim.Native.String.{◌++◌}
use bulk_http.Prelude.{String, Bool, true, Option, none, some, List, [], string_keys, if◌then◌else◌}
use bulk_http.Except.{Except, ok, raise}
use bulk_http.Effects.{Stateful, ◌then◌, lift}
use bulk_http.Floats.{Floats, lt_f}
use bulk_http.Dict.{Dict, get, get_or, put}

-- `origin` is "scheme://netloc" of a URL; `fetch` changes a world of its own.
pub record Robots (F : Floats) : Type 1 where
  pub World : Type 0
  pub Parser : Type 0
  pub origin : String → Except String
  pub fetch : String → Stateful World (Option String)
  pub parse : String → Parser
  pub can_fetch : Parser → String → String → Bool
  pub crawl_delay : Parser → String → Option F.Float

-- AsyncRobotsGate, over the world of its fetcher
pub record AsyncRobotsGate {F : Floats} (R : Robots F) : Type 0 where
  pub user_agent : String
  pub cache : Dict String (Option R.Parser)
  pub next_allowed : Dict String F.Float
  pub world : R.World

-- What a call of `throttle` found before it slept.
pub record Throttle (F : Floats) : Type 0 where
  pub at_origin : String
  pub sleeps : Option F.Float
  pub start : F.Float
  pub delay : F.Float

module _ {F : Floats} (R : Robots F) where
  -- RobotFileParser().parse(content.splitlines()), where there is content
  abbrev pub parsed : Option String → Option R.Parser
  parsed none = none
  parsed (some content) = some (R.parse content)

  -- `self._cache[origin] = ...`, from what the fetcher returned
  unfoldable pub store_parser :
      String → Except (Option String) → Stateful (AsyncRobotsGate R) (Option R.Parser)
  store_parser origin (raise x) g = (raise x, g)
  store_parser origin (ok content) g =
      (ok (parsed content), record g { cache = put origin (parsed content) g.cache })

  -- self._fetcher(f"{origin}/robots.txt"), and the new entry of the cache
  unfoldable pub fetch_parser : String → Stateful (AsyncRobotsGate R) (Option R.Parser)
  unfolding store_parser
  fetch_parser origin g =
      let (content, w) = R.fetch (origin ++ "/robots.txt") g.world in
      store_parser origin content (record g { world = w })

  -- `if origin not in self._cache`
  unfoldable pub cached_parser :
      Option (Option R.Parser) → String → Stateful (AsyncRobotsGate R) (Option R.Parser)
  unfolding fetch_parser
  cached_parser none origin = fetch_parser origin
  cached_parser (some p) origin = lift (ok p)

  unfoldable pub parser_at : String → Stateful (AsyncRobotsGate R) (Option R.Parser)
  unfolding cached_parser
  parser_at origin g = cached_parser (get origin g.cache) origin g

  -- AsyncRobotsGate._parser
  unfoldable pub parser_of : String → Stateful (AsyncRobotsGate R) (Option R.Parser)
  unfolding parser_at
  parser_of url = lift (R.origin url) then parser_at

  -- the answer of a parser, where there is one
  abbrev pub may_fetch : String → String → Option R.Parser → Bool
  may_fetch user_agent url none = true
  may_fetch user_agent url (some p) = R.can_fetch p user_agent url

  -- AsyncRobotsGate.allowed
  unfoldable pub allowed_url : String → Stateful (AsyncRobotsGate R) Bool
  unfolding parser_of
  allowed_url url = parser_of url then λ p g. (ok (may_fetch g.user_agent url p), g)

  abbrev pub delay_of : String → Option R.Parser → Option F.Float
  delay_of user_agent none = none
  delay_of user_agent (some p) = R.crawl_delay p user_agent

  -- the lines of `throttle` from the clock to the sleep, when the clock shows `now`
  unfoldable pub plan_throttle : AsyncRobotsGate R → String → F.Float → F.Float → Throttle F
  plan_throttle g origin delay now =
      let earliest = get_or origin F.zero_f g.next_allowed in
      let wait = F.sub_f earliest now in
      record {
        at_origin = origin;
        sleeps = if lt_f F F.zero_f wait then some wait else none;
        start = if lt_f F F.zero_f wait then earliest else now;
        delay = delay;
      }

  -- the last line of `throttle`, behind the sleep
  unfoldable pub end_throttle : AsyncRobotsGate R → Throttle F → AsyncRobotsGate R
  end_throttle g t = record g {
    next_allowed = put t.at_origin (F.add_f t.start t.delay) g.next_allowed;
  }
