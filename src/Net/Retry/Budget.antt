-- ===== src/Net/Retry/Budget.antt =====
-- What a trace of the retry policy costs in requests and pauses.
use bulk_http.Prelude.{ℕ, ◌≡◌, false, Option, List, arith}
use bulk_http.Prelude.Int.{pos}
use bulk_http.Floats.{Floats}
use bulk_http.Config.{ResolvedRequest}
use bulk_http.Net.Transport.{RawResponse, Env}
use bulk_http.Net.Retry.{is_replayable}
use bulk_http.Net.Retry.Refinement.{perform_with_retries-Permitted}
use bulk_http.Net.Retry.Trace.{
  Event, stopped, out_of_time, Permitted, last, retry, FollowsPolicy, unbounded, bounded, requests,
  Runs,
}

module _ {F : Floats} {q : ResolvedRequest F} {base cap : F.Float} {deadline : Option F.Float} where
  unsafe_once :
      {k left : ℕ} {es : List (Event F)} {r : RawResponse F}
      → is_replayable q ≡ false
      → Permitted q base cap deadline k left es r
      → requests es ≡ 1
  unsafe_once h (last (stopped why)) = omega arith
  unsafe_once h (last (out_of_time d j now t on late)) = omega arith
  unsafe_once h (retry r₀ j now t p time rest) = absurd (ground arith)

module _ {F : Floats} {q : ResolvedRequest F} {base cap : F.Float} {m : ℕ} where
  policy_once :
      {es : List (Event F)} {r : RawResponse F}
      → is_replayable q ≡ false
      → FollowsPolicy q base cap m es r
      → requests es ≡ 1
  policy_once h (unbounded off follows) = unsafe_once h follows
  policy_once h (bounded t start on follows) = unsafe_once h follows

module _ {F : Floats} (E : Env F) (base cap : F.Float) (q : ResolvedRequest F) (m : ℕ) (w : E.World)
    (es : List (Event F)) (e : q.retries ≡ pos m) where
  -- A request whose method is not idempotent, and for which replays are not enabled, is sent
  -- exactly once, whatever comes back.
  pub unsafe_request_once :
      is_replayable q ≡ false → Runs E base cap q w es λ new r. requests new ≡ 1
  unsafe_request_once h =
      let (r, w', new, runs, follows) = perform_with_retries-Permitted E base cap q m w es e in
      (r, w', new, runs, policy_once h follows)
