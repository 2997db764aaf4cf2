-- ===== src/Examples/Curl.antt =====
-- Bodies that are cut off: one that never ends, and a robots.txt.
use bulk_http.Prelude.{
  ℕ, ◌+◌, ◌<◌, ◌≤◌, ◌≡◌, suc, true, length, refl, arith, none, some, String, [], ◌∷◌,
}
use bulk_http.Prelude.Int.{pos}
use bulk_http.Floats.Millis.{millis}
use bulk_http.Models.{post_init}
use bulk_http.Config.{EngineConfig, default_config, effective}
use bulk_http.Engine.RobotsSupport.{robots_request, whole_request}
use bulk_http.Engine.RobotsSupport.Cut.{robots_request_cut}
use bulk_http.Net.Transport.{RawResponse}
use bulk_http.Net.Curl.{Pull, chunk, read_body, Session, CurlResponse, got, request, perform}
use bulk_http.Net.Curl.StreamCut.{
  read_before, AreNonempty, PassesOver, StopsAt, wire_test, read_body-stops,
}
use bulk_http.Examples.Matching.{texts, codecs}

-- two bytes at a time, for ever
abbrev endless : ℕ → Pull
endless i = chunk (1 ∷ 2 ∷ [])

endless-AreNonempty : AreNonempty endless
endless-AreNonempty k c e = ground (arith, e)

read_body-stops_example :
    (k : ℕ) × (k < 5)
    × PassesOver (wire_test codecs texts none 5) endless k
    × StopsAt
        (wire_test codecs texts none 5)
        endless
        k
        (read_body (wire_test codecs texts none 5) endless 8 0 [])
read_body-stops_example =
    read_body-stops codecs texts none 5 endless endless-AreNonempty 8 (omega arith) (omega arith)

-- a session that answers every request with the endless body
abbrev session : Session millis
session = record {
  World = ℕ;
  request = λ r w. (
    got (record {
      status_code = 200;
      url = r.url;
      headers = [];
      content_coding = none;
      content = [];
      pulls = endless;
    }),
    w + 1,
  );
  close_response = λ w. w;
  close_session = λ w. w;
  version = none;
  monotonic = λ w. (0, w);
}

-- the engine's defaults, with bodies cut off at four bytes
abbrev cutting : EngineConfig millis
cutting = record default_config { stream_cut = some (pos 4) }

abbrev robots_url : String
robots_url = "https://a.test/robots.txt"

abbrev answer : CurlResponse
answer = record {
  status_code = 200;
  url = robots_url;
  headers = [];
  content_coding = none;
  content = [];
  pulls = endless;
}

robots_request_cut_example :
    (k : ℕ) × (response : RawResponse millis) × (k < 4)
    × PassesOver (wire_test codecs texts none 4) endless k
    × ((perform codecs texts session 4 (effective cutting (whole_request robots_url)) 0).0
        ≡ got response)
    × (response.truncated ≡ true)
    × (response.fragment ≡ read_before (wire_test codecs texts none 4) endless (suc k))
    × (4 ≤ length response.fragment)
unfolding robots_request post_init effective request
robots_request_cut_example =
    robots_request_cut codecs texts session cutting robots_url 4
      (effective cutting (whole_request robots_url)) 4 0 1 answer refl refl refl refl refl
      endless-AreNonempty (λ k below. (1 ∷ 2 ∷ [], refl)) (omega arith) (omega arith)
