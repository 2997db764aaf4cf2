-- ===== src/Net/Transport.antt =====
-- src/bulk_http/net/transport.py: the outcome of one request, and the world above which the code
-- runs: a transport, a clock, a source of jitter and a sleep, all passed in as arguments.
use bulk_http.Prelude.{ℕ, String, Bool, Option, List}
use bulk_http.Floats.{Floats}
use bulk_http.Dict.{Dict}
use bulk_http.Config.{ResolvedRequest}

pub record RawResponse (F : Floats) : Type 0 where
  pub status : Option ℕ
  pub url : String
  pub headers : Dict String String
  pub fragment : List ℕ
  pub content_encoding : Option String
  pub truncated : Bool
  pub elapsed : Option F.Float
  pub error : Option String

-- Transport, Clock, Jitter and Sleep, each with its effect on a world of its own.
pub record Env (F : Floats) : Type 1 where
  pub World : Type 0
  pub perform : ResolvedRequest F → World → RawResponse F × World
  pub clock : World → F.Float × World
  pub jitter : World → F.Float × World
  pub sleep : F.Float → World → World
