-- ===== src/Engine/RobotsSupport.antt =====
-- src/bulk_http/engine/robots_support.py: the gate of robots.txt whose fetcher is the transport.
-- RobotFileParser and the decoding of UTF-8 are parameters.
pub mod Cut
use bulk_http.Prelude.{String, Bool, true, false, Option, none, some, List, [], if◌then◌else◌}
use bulk_http.Except.{Except, ok, raise, ◌>>=◌}
use bulk_http.Effects.{Stateful}
use bulk_http.Floats.{Floats}
use bulk_http.Bytes.{Bytes}
use bulk_http.Texts.{Texts}
use bulk_http.Decompress.{Codecs, decompress_fragment}
use bulk_http.Models.{Request, bare_request, post_init}
use bulk_http.Config.{EngineConfig, ResolvedRequest, effective}
use bulk_http.Net.Transport.{RawResponse, Env}
use bulk_http.Net.Retry.{status_is}
use bulk_http.Compliance.Robots.{Robots, AsyncRobotsGate}

-- urllib's part of a gate
pub record RobotFiles (F : Floats) : Type 1 where
  pub Parser : Type 0
  pub origin : String → Except String
  pub parse : String → Parser
  pub can_fetch : Parser → String → String → Bool
  pub crawl_delay : Parser → String → Option F.Float

module _ {F : Floats} where
  -- Request(url=robots_url, fast_status=False)
  abbrev pub whole_request : String → Request F
  whole_request url = record (bare_request url) { fast_status = some false }

  -- config.effective(...)
  unfoldable pub robots_request : EngineConfig F → String → Except (ResolvedRequest F)
  unfolding effective post_init
  robots_request c url = post_init (whole_request url) >>= λ r. ok (effective c r)

  module _ (C : Codecs) (T : Texts) (decode : Bytes → String) where
    -- the text of the file, where it was found
    unfoldable pub robots_text : RawResponse F → Except (Option String)
    unfolding decompress_fragment
    robots_text response =
        if status_is response.status 200
        then (decompress_fragment C T response.fragment response.content_encoding >>= λ body.
            ok (some (decode body)))
        else ok none

    -- the fetcher
    unfoldable pub fetch_robots :
        (E : Env F) → EngineConfig F → String → Stateful E.World (Option String)
    unfolding robots_request robots_text
    fetch_robots E c url w = elim (robots_request c url) [
      | raise x ↦ (raise x, w)
      | ok q ↦ let (response, w') = E.perform q w in (robots_text response, w')
    ]

    -- what AsyncRobotsGate is given
    abbrev pub robots_of : RobotFiles F → Env F → EngineConfig F → Robots F
    robots_of R E c = record {
      World = E.World;
      Parser = R.Parser;
      origin = R.origin;
      fetch = fetch_robots E c;
      parse = R.parse;
      can_fetch = R.can_fetch;
      crawl_delay = R.crawl_delay;
    }

    unfoldable pub make_robots_gate :
        (R : RobotFiles F) (E : Env F) (c : EngineConfig F)
        → E.World
        → Option (AsyncRobotsGate (robots_of R E c))
    make_robots_gate R E c w =
        if c.respect_robots
        then some (record { user_agent = "*"; cache = []; next_allowed = []; world = w })
        else none
