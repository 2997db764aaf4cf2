-- ===== src/Engine/RobotsSupport/Cut.antt =====
-- The request for robots.txt of src/bulk_http/engine/robots_support.py, as src/bulk_http/net/curl.py
-- performs it.
use bulk_http.Prelude.{
  ℕ, Bool, ◌≡◌, ◌<◌, ◌≤◌, suc, true, length, [], refl, ap, sym, ◌∙◌, arith, String, false, some,
  ◌==◌, string_keys, inl, inr,
}
use bulk_http.Prelude.Int.{ℤ, pos}
use bulk_http.Except.{ok, Except-cases}
use bulk_http.Floats.{Floats}
use bulk_http.Texts.{Texts}
use bulk_http.Decompress.{Codecs}
use bulk_http.Models.{post_init}
use bulk_http.Config.Validity.{post_init_same}
use bulk_http.Config.{EngineConfig, ResolvedRequest, effective}
use bulk_http.Bytes.{Bytes}
use bulk_http.Net.Transport.{RawResponse}
use bulk_http.Net.Curl.{
  Session, CurlResponse, Attempt, chunk, got, is_reached, since, after, request, raw_response,
  read_body, perform, perform_cut, perform_stream_cut, catch_curl,
}
use bulk_http.Net.Curl.StreamCut.{AreNonempty, PassesOver, read_before, wire_test, read_body_cuts}
use bulk_http.Engine.RobotsSupport.{robots_request, whole_request}

module _ {F : Floats} where
  robots_request-effective :
      (c : EngineConfig F) (url : String) (q : ResolvedRequest F)
      → robots_request c url ≡ ok q
      → effective c (whole_request url) ≡ q
  unfolding robots_request
  robots_request-effective c url q made =
      elim (Except-cases (post_init (whole_request {F = F} url))) [
        | inl (r, e) ↦
            ap (effective c) (post_init_same (whole_request url) r e) ∙ ground (arith, e, made)
        | inr (x, e) ↦ absurd (ground (arith, e, made))
      ]

module _ {F : Floats} (C : Codecs) (T : Texts) (S : Session F) where
  perform-stream_cut :
      (q : ResolvedRequest F) (t : ℤ) (fuel : ℕ) (w : S.World)
      → (q.http_version == "h3") ≡ false
      → q.fast_status ≡ false
      → q.stream_cut ≡ some t
      → perform C T S fuel q w
        ≡ catch_curl C T S q
            (S.monotonic w).0
            (perform_stream_cut C T S fuel q t (S.monotonic w).0 (S.monotonic w).1)
  unfolding perform perform_cut
  perform-stream_cut q t fuel w version whole cut =
      rw (perform, perform_cut, version, whole, cut) refl

  after_got :
      {A B : Type 0} (out : Attempt A × S.World) (next : A → S.World → Attempt B × S.World) (a : A)
      (w : S.World)
      → out ≡ (got a, w)
      → after C T S out next ≡ next a w
  unfolding after
  after_got out next a w e = ap (λ o. after C T S o next) e

  -- what perform_stream_cut does with the response, and then with the bytes of its body
  abbrev with_bytes :
      F.Float → CurlResponse → Bytes × Bool → S.World → Attempt (RawResponse F) × S.World
  with_bytes start r out w =
      let (elapsed, w') = since C T S start w in
      (got (raw_response C T S r out.0 out.1 elapsed), w')

  abbrev with_response :
      ℕ
      → ResolvedRequest F
      → ℕ
      → F.Float
      → CurlResponse
      → S.World
      → Attempt (RawResponse F) × S.World
  with_response fuel q t start r w =
      after C T S
        (
          read_body (is_reached C T q.cut_on r.content_coding (pos t)) r.pulls fuel 0 [],
          S.close_response w,
        )
        (with_bytes start r)

  catch_curl-got :
      (q : ResolvedRequest F) (start : F.Float) (out : Attempt (RawResponse F) × S.World)
      (r : RawResponse F)
      → out.0 ≡ got r
      → (catch_curl C T S q start out).0 ≡ got r
  unfolding catch_curl
  catch_curl-got q start out r e = rw (catch_curl, e) e

  stream_cut_out :
      (q : ResolvedRequest F) (t : ℕ) (fuel : ℕ) (start : F.Float) (w w₁ : S.World)
      (r : CurlResponse) (b : Bytes)
      → request C T S q true w ≡ (got r, w₁)
      → q.cut_on ≡ "wire"
      → read_body (wire_test C T r.content_coding t) r.pulls fuel 0 [] ≡ got (b, true)
      → (elapsed : F.Float) × ((perform_stream_cut C T S fuel q (pos t) start w).0
          ≡ got (raw_response C T S r b true elapsed))
  unfolding perform_stream_cut
  stream_cut_out q t fuel start w w₁ r b sent wired out =
      let whole =
        ap (λ m. read_body (is_reached C T m r.content_coding (pos t)) r.pulls fuel 0 []) wired
        ∙ out in
      (
        (since C T S start (S.close_response w₁)).0,
        ap (λ o. o.0)
            (after_got (request C T S q true w) (with_response fuel q t start) r w₁ sent
              ∙ after_got _ (with_bytes start r) (b, true) (S.close_response w₁)
                  (ap (λ o. (o, S.close_response w₁)) whole)),
      )

  -- Under a configuration that cuts bodies off on the wire, the robots.txt that a gate fetches is
  -- cut off as well, though the request asks for no Fast-Status: of a response whose body goes on in
  -- nonempty chunks, the transport gives the first bytes only, up to the chunk with which they
  -- reach the threshold, marked as truncated.
  pub robots_request_cut :
      (c : EngineConfig F) (url : String) (t : ℕ) (q : ResolvedRequest F) (fuel : ℕ)
      (w w₁ : S.World) (r : CurlResponse)
      → c.stream_cut ≡ some (pos t)
      → c.cut_on ≡ "wire"
      → (c.http_version == "h3") ≡ false
      → robots_request c url ≡ ok q
      → request C T S q true (S.monotonic w).1 ≡ (got r, w₁)
      → AreNonempty r.pulls
      → ((k : ℕ) → k < t → (piece : Bytes) × (r.pulls k ≡ chunk piece))
      → 0 < t
      → t ≤ fuel
      → (k : ℕ) × (response : RawResponse F) × (k < t)
        × PassesOver (wire_test C T r.content_coding t) r.pulls k
        × ((perform C T S fuel q w).0 ≡ got response)
        × (response.truncated ≡ true)
        × (response.fragment ≡ read_before (wire_test C T r.content_coding t) r.pulls (suc k))
        × (t ≤ length response.fragment)
  unfolding effective
  robots_request_cut c url t q fuel w w₁ r cut wire version made sent nonempty goes_on some_bytes
        enough =
      let same = robots_request-effective c url q made in
      let wired : q.cut_on ≡ "wire" = ap (λ r. r.cut_on) (sym same) ∙ wire in
      let way =
        perform-stream_cut q (pos t) fuel w (ap (λ r. r.http_version == "h3") (sym same) ∙ version)
          (ap (λ r. r.fast_status) (sym same)) (ap (λ r. r.stream_cut) (sym same) ∙ cut) in
      let (k, b, below, over, out, all, long) =
        read_body_cuts C T r.content_coding t r.pulls nonempty fuel some_bytes enough goes_on in
      let (elapsed, result) =
        stream_cut_out q t fuel (S.monotonic w).0 (S.monotonic w).1 w₁ r b sent wired out in
      (
        k,
        raw_response C T S r b true elapsed,
        below,
        over,
        ap (λ o. o.0) way ∙ catch_curl-got q _ _ (raw_response C T S r b true elapsed) result,
        refl,
        all,
        long,
      )
