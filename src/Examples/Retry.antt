-- ===== src/Examples/Retry.antt =====
-- The retry loop over a scripted transport.
use bulk_http.Prelude.{ℕ, ◌≡◌, refl, false, none, some, [], ◌∷◌}
use bulk_http.Except.{ok}
use bulk_http.Floats.Millis.{millis}
use bulk_http.Config.{ResolvedRequest, effective, default_config}
use bulk_http.Models.{bare_request}
use bulk_http.Net.Transport.{RawResponse, Env}
use bulk_http.Net.Fake.{FakeWorld, fake_env, sequence, perform}
use bulk_http.Net.Retry.{
  attempts, attempt_once, is_transient, is_replayable, perform_with_retries, deadline_for,
}

abbrev answer : ℕ → RawResponse millis
answer code = record {
  status = some code;
  url = "https://a.test/";
  headers = [];
  fragment = [];
  content_encoding = none;
  truncated = false;
  elapsed = none;
  error = none;
}

abbrev get_request : ResolvedRequest millis
unfolding effective
get_request = effective default_config (bare_request "https://a.test/")

abbrev post_request : ResolvedRequest millis
unfolding effective
post_request =
    effective default_config (record (bare_request "https://a.test/") { method = "POST" })

abbrev E : Env millis
E = fake_env millis 500

-- two refusals by the rate limit, and then a page
abbrev limited_twice : FakeWorld millis
unfolding sequence
limited_twice = record { transport = sequence (answer 429) (answer 429 ∷ answer 200 ∷ []); now = 0 }

-- The loop asks three times and sleeps 200 + 100 and 400 + 100 milliseconds.
three_requests : (perform_with_retries E 200 10_000 get_request limited_twice).0 ≡ ok (answer 200)
unfolding perform_with_retries attempts deadline_for attempt_once perform sequence effective
    is_transient is_replayable
three_requests = refl
