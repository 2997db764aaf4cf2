-- ===== src/Net/Curl.antt =====
-- src/bulk_http/net/curl.py: a request through curl_cffi, whose session is the parameter `Session`,
-- whole, cut off after the headers, or cut off at a number of bytes.
pub mod StreamCut
use bulk_http.Prelude.{
  ℕ, zero, suc, String, Bool, true, false, Option, none, some, List, [], ◌∷◌, ◌++◌, ◌==◌, ◌&&◌,
  ◌||◌, not, any, length, string_keys, if◌then◌else◌,
}
use bulk_http.Prelude.Int.{ℤ, int_le}
use bulk_http.Except.{Error, Except, ok, raise, key_error, assertion_error}
use bulk_http.Floats.{Floats}
use bulk_http.Dict.{Dict, keys, put}
use bulk_http.Bytes.{Bytes}
use bulk_http.Texts.{Texts, is_in}
use bulk_http.Decompress.{Codecs, decompress_fragment}
use bulk_http.Config.{ResolvedRequest, or_default}
use bulk_http.Net.Transport.{RawResponse}

-- curl_cffi.const.CurlHttpVersion
pub data CurlHttpVersion : Type 0 where
  version_1_1 version_2_0 version_3 : CurlHttpVersion

-- The arguments of `session.request`, of which `accept_encoding` is always None.
pub record CurlRequest (F : Floats) : Type 0 where
  pub method : String
  pub url : String
  pub headers : Dict String String
  pub cookies : Option (Dict String String)
  pub content : Option Bytes
  pub proxy : Option String
  pub timeout : F.Float
  pub verify : Bool
  pub impersonate : String
  pub allow_redirects : Bool
  pub max_redirects : ℤ
  pub http_version : Option CurlHttpVersion
  pub stream : Bool

-- What one pull of `response.aiter_content()` gives; `broken` is the class of a CurlError.
pub data Pull : Type 0 where
  chunk : Bytes → Pull
  finished : Pull
  broken : String → Pull

-- A response: `content_coding` is `headers.get("Content-Encoding")`, `content` is read without
-- `stream`, and `pulls` with it, perhaps without end.
pub record CurlResponse : Type 0 where
  pub status_code : ℕ
  pub url : String
  pub headers : Dict String String
  pub content_coding : Option String
  pub content : Bytes
  pub pulls : ℕ → Pull

-- How code ends that calls curl: with a value, a CurlError of a class, another error, or not within
-- the pulls that it was given.
pub data Attempt {ℓ} (A : Type ℓ) : Type ℓ where
  got : A → Attempt A
  curl_error : String → Attempt A
  raises : Error → Attempt A
  running : Attempt A

-- AsyncSession, the version of libcurl (none where asking for it raises) and the clock.
pub record Session (F : Floats) : Type 1 where
  pub World : Type 0
  pub request : CurlRequest F → World → Attempt CurlResponse × World
  -- response.aclose()
  pub close_response : World → World
  -- session.close()
  pub close_session : World → World
  pub version : Option String
  pub monotonic : World → F.Float × World

abbrev pub impersonate_accept_encoding : String
impersonate_accept_encoding = "gzip, deflate, br, zstd"

-- _HTTP_VERSION_MAP[version]
unfoldable pub http_version_of : String → Except (Option CurlHttpVersion)
http_version_of version =
    if version == "auto"
    then ok none
    else if version == "h1"
    then ok (some version_1_1)
    else if version == "h2"
    then ok (some version_2_0)
    else if version == "h3"
    then ok (some version_3)
    else raise key_error

-- http3_available, whose answer is cached since it does not change
unfoldable pub http3_available : Option String → Bool
http3_available none = false
http3_available (some text) = is_in "nghttp3" text || (is_in "ngtcp2" text || is_in "quiche" text)

module _ {F : Floats} (T : Texts) where
  -- CurlTransport._headers_for
  unfoldable pub headers_for : ResolvedRequest F → Dict String String
  headers_for q =
      let headers = or_default q.headers [] in
      if any (λ key. T.lower key == "accept-encoding") (keys headers)
      then headers
      else if q.accept_encoding == "identity"
      then put "Accept-Encoding" "identity" headers
      else put "Accept-Encoding" impersonate_accept_encoding headers

  -- the arguments that CurlTransport._request passes
  unfoldable pub curl_request : ResolvedRequest F → Bool → Except (CurlRequest F)
  unfolding headers_for http_version_of
  curl_request q stream = elim (http_version_of q.http_version) [
    | raise x ↦ raise x
    | ok version ↦ ok (record {
      method = q.method;
      url = q.url;
      headers = headers_for q;
      cookies = q.cookies;
      content = q.body;
      proxy = q.proxy;
      timeout = q.timeout;
      verify = q.verify_ssl;
      impersonate = q.impersonate;
      allow_redirects = q.follow_redirects;
      max_redirects = q.max_redirects;
      http_version = version;
      stream = stream;
    })
  ]

-- whether what was read reaches the threshold, in the bytes of the wire or of the content
unfoldable pub is_reached : Codecs → Texts → String → Option String → ℤ → Bytes → Except Bool
unfolding decompress_fragment
is_reached C T cut_on coding threshold buffer =
    if cut_on == "decoded"
    then elim (decompress_fragment C T buffer coding) [
      | raise x ↦ raise x
      | ok content ↦ ok (int_le threshold (length content))
    ]
    else ok (int_le threshold (length buffer))

-- The loop of _perform_stream_cut, for at most the given number of pulls, the next of which is `i`:
-- the bytes that were read, and whether the loop broke off.
unfoldable pub read_body :
    (Bytes → Except Bool) → (ℕ → Pull) → ℕ → ℕ → Bytes → Attempt (Bytes × Bool)
read_body reached pulls zero i buffer = running
read_body reached pulls (suc n) i buffer =
    let more = λ (c : Bytes). read_body reached pulls n (suc i) (buffer ++ c) in
    elim (pulls i) [
      | finished ↦ got (buffer, false)
      | broken name ↦ curl_error name
      | chunk c ↦ elim (reached (buffer ++ c)) [
        | raise x ↦ raises x
        | ok true ↦ got (buffer ++ c, true)
        | ok false ↦ more c
      ]
    ]

module _ {F : Floats} (C : Codecs) (T : Texts) (S : Session F) where
  open S use {World}

  abbrev pub Io {ℓ} : Type ℓ → Type ℓ
  Io A = World → Attempt A × World

  -- time.monotonic() - start
  abbrev pub since : F.Float → World → F.Float × World
  since start w = let (now, w') = S.monotonic w in (F.sub_f now start, w')

  -- what follows a call, unless it raises
  unfoldable pub after {ℓ κ} :
      {A : Type ℓ} {B : Type κ} → Attempt A × World → (A → Io B) → Attempt B × World
  after out next = elim out.0 [
    | got a ↦ next a out.1
    | curl_error name ↦ (curl_error name, out.1)
    | raises x ↦ (raises x, out.1)
    | running ↦ (running, out.1)
  ]

  -- CurlTransport._request
  unfoldable pub request : ResolvedRequest F → Bool → Io CurlResponse
  unfolding curl_request
  request q stream w = elim (curl_request T q stream) [
    | raise x ↦ (raises x, w)
    | ok r ↦ S.request r w
  ]

  -- the response with a fragment of its body
  abbrev pub raw_response : CurlResponse → Bytes → Bool → F.Float → RawResponse F
  raw_response r fragment truncated elapsed = record {
    status = some r.status_code;
    url = r.url;
    headers = r.headers;
    fragment = fragment;
    content_encoding = r.content_coding;
    truncated = truncated;
    elapsed = some elapsed;
    error = none;
  }

  -- the answer where no response came
  abbrev pub failed_response : ResolvedRequest F → String → F.Float → RawResponse F
  failed_response q error elapsed = record {
    status = none;
    url = q.url;
    headers = [];
    fragment = [];
    content_encoding = none;
    truncated = false;
    elapsed = some elapsed;
    error = some error;
  }

  -- CurlTransport._perform_full
  unfoldable pub perform_full : ResolvedRequest F → F.Float → Io (RawResponse F)
  unfolding after request
  perform_full q start w = after (request q false w) λ r w.
      let (elapsed, w') = since start w in (got (raw_response r (r.content) false elapsed), w')

  -- CurlTransport._perform_fast_status
  unfoldable pub perform_fast_status : ResolvedRequest F → F.Float → Io (RawResponse F)
  unfolding after request
  perform_fast_status q start w = after (request q true w) λ r w.
      let (elapsed, w') = since start w in
      (got (raw_response r [] true elapsed), S.close_response w')

  -- CurlTransport._perform_stream_cut, for at most `fuel` pulls of the body
  unfoldable pub perform_stream_cut : ℕ → ResolvedRequest F → ℤ → F.Float → Io (RawResponse F)
  unfolding after request read_body is_reached
  perform_stream_cut fuel q threshold start w = after (request q true w) λ r w.
      let reached = is_reached C T q.cut_on r.content_coding threshold in
      after (read_body reached r.pulls fuel 0 [], S.close_response w)
        λ out w. let (elapsed, w') = since start w in (got (raw_response r out.0 out.1 elapsed), w')

  -- the three ways to perform a request
  unfoldable pub perform_cut :
      ℕ → ResolvedRequest F → Bool → Option ℤ → F.Float → Io (RawResponse F)
  unfolding perform_full perform_fast_status perform_stream_cut
  perform_cut fuel q true stream_cut start = perform_fast_status q start
  perform_cut fuel q false (some threshold) start = perform_stream_cut fuel q threshold start
  perform_cut fuel q false none start = perform_full q start

  -- `except CurlError`
  unfoldable pub catch_curl :
      ResolvedRequest F
      → F.Float
      → Attempt (RawResponse F) × World
      → Attempt (RawResponse F) × World
  catch_curl q start out = elim out.0 [
    | curl_error name ↦
        let (elapsed, w) = since start out.1 in (got (failed_response q name elapsed), w)
    | got r ↦ out
    | raises x ↦ out
    | running ↦ out
  ]

  -- CurlTransport.perform
  unfoldable pub perform : ℕ → ResolvedRequest F → Io (RawResponse F)
  unfolding perform_cut catch_curl http3_available
  perform fuel q w =
      let (start, w') = S.monotonic w in
      if q.http_version == "h3" && not (http3_available S.version)
      then (let (elapsed, w₁) = since start w' in
          (got (failed_response q "http3_unavailable" elapsed), w₁))
      else catch_curl q start (perform_cut fuel q q.fast_status q.stream_cut start w')

  -- CurlTransport.aclose
  unfoldable pub aclose : Bool → World → World
  aclose owns_session w = if owns_session then S.close_session w else w
