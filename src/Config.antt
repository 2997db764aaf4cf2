-- ===== src/Config.antt =====
-- src/bulk_http/config.py: the engine's defaults, their checks, and the resolution of a request.
pub mod Validity
use bulk_http.Prelude.{
  ℕ, String, Bool, true, false, Option, none, some, List, [], contains, string_keys, not,
}
use bulk_http.Prelude.Int.{ℤ, pos, lt_num}
use bulk_http.Except.{Except, ok, value_error, ◌>>◌, raise_if}
use bulk_http.Floats.{Floats}
use bulk_http.Dict.{Dict}
use bulk_http.Value.{Meta}
use bulk_http.Types.{idempotent_methods, cut_on_values, http_versions, accept_encodings}
use bulk_http.Models.{Expected, Request, set_and, le_zero}
use bulk_http.Proxies.AdaptiveConfig.{AdaptiveRateConfig}

pub record ResolvedRequest (F : Floats) : Type 0 where
  pub url : String
  pub method : String
  pub headers : Option (Dict String String)
  pub cookies : Option (Dict String String)
  pub body : Option (List ℕ)
  pub needles : List String
  pub expected_status : Option Expected
  pub meta : Meta F
  pub proxy : Option String
  pub stream_cut : Option ℤ
  pub cut_on : String
  pub fast_status : Bool
  pub follow_redirects : Bool
  pub max_redirects : ℤ
  pub verify_ssl : Bool
  pub impersonate : String
  pub http_version : String
  pub accept_encoding : String
  pub timeout : F.Float
  pub total_timeout : Option F.Float
  pub retries : ℤ
  pub retry_non_idempotent : Bool

-- int | Literal["auto"]
pub data Workers : Type 0 where
  auto_workers : Workers
  count : ℤ → Workers

pub record EngineConfig (F : Floats) : Type 0 where
  pub workers : Workers
  pub concurrency_per_worker : ℤ
  pub chunk_size : ℤ
  pub max_tasks_per_child : Option ℤ
  pub in_flight_batches : ℤ
  pub stream_cut : Option ℤ
  pub cut_on : String
  pub fast_status : Bool
  pub accept_encoding : String
  pub http_version : String
  pub verify_ssl : Bool
  pub follow_redirects : Bool
  pub max_redirects : ℤ
  pub timeout : F.Float
  pub total_timeout : Option F.Float
  pub retries : ℤ
  pub retry_non_idempotent : Bool
  pub impersonate : String
  pub respect_robots : Bool
  pub per_domain_rate_limit : Option F.Float
  pub allowlist : List String
  pub denylist : List String
  pub identity_header : Option (String × String)
  pub authorization : Option String
  pub adaptive_rate : Option (AdaptiveRateConfig F)
  pub checkpoint : Option String

-- `workers != "auto" and workers < 1`
abbrev pub bad_workers : Workers → Bool
bad_workers auto_workers = false
bad_workers (count z) = lt_num z 1

-- `o if o is not None else default`
abbrev pub or_default {ℓ} : {A : Type ℓ} → Option A → A → A
or_default none default = default
or_default (some a) default = a

-- `o if o is not None else default`, where the default may be None too
abbrev pub or_else {ℓ} : {A : Type ℓ} → Option A → Option A → Option A
or_else none default = default
or_else (some a) default = some a

module _ {F : Floats} where
  -- EngineConfig.__post_init__
  unfoldable pub check_config : EngineConfig F → Except (EngineConfig F)
  check_config c = do
    raise_if (bad_workers c.workers) value_error
    raise_if (lt_num c.concurrency_per_worker 1) value_error
    raise_if (lt_num c.chunk_size 1) value_error
    raise_if (lt_num c.in_flight_batches 1) value_error
    raise_if (set_and c.max_tasks_per_child (λ z. lt_num z 1)) value_error
    raise_if (set_and c.stream_cut le_zero) value_error
    raise_if (not (contains cut_on_values c.cut_on)) value_error
    raise_if (not (contains http_versions c.http_version)) value_error
    raise_if (not (contains accept_encodings c.accept_encoding)) value_error
    raise_if (lt_num c.max_redirects 0) value_error
    raise_if (F.le_f c.timeout F.zero_f) value_error
    raise_if (set_and c.total_timeout (λ t. F.le_f t F.zero_f)) value_error
    raise_if (lt_num c.retries 0) value_error
    raise_if (set_and c.per_domain_rate_limit (λ r. F.le_f r F.zero_f)) value_error
    ok c

  -- EngineConfig.effective
  unfoldable pub effective : EngineConfig F → Request F → ResolvedRequest F
  effective c r = record {
    url = r.url;
    method = r.method;
    headers = r.headers;
    cookies = r.cookies;
    body = r.body;
    needles = r.needles;
    expected_status = r.expected_status;
    meta = r.meta;
    proxy = r.proxy;
    stream_cut = or_else r.stream_cut c.stream_cut;
    cut_on = or_default r.cut_on c.cut_on;
    fast_status = or_default r.fast_status c.fast_status;
    follow_redirects = or_default r.follow_redirects c.follow_redirects;
    max_redirects = or_default r.max_redirects c.max_redirects;
    verify_ssl = or_default r.verify_ssl c.verify_ssl;
    impersonate = or_default r.impersonate c.impersonate;
    http_version = or_default r.http_version c.http_version;
    accept_encoding = or_default r.accept_encoding c.accept_encoding;
    timeout = or_default r.timeout c.timeout;
    total_timeout = or_else r.total_timeout c.total_timeout;
    retries = or_default r.retries c.retries;
    retry_non_idempotent = or_default r.retry_non_idempotent c.retry_non_idempotent;
  }

  -- ResolvedRequest.is_idempotent
  unfoldable pub is_idempotent : ResolvedRequest F → Bool
  is_idempotent r = contains idempotent_methods r.method

  -- EngineConfig(): the defaults
  abbrev pub default_config : EngineConfig F
  default_config = record {
    workers = auto_workers;
    concurrency_per_worker = pos 450;
    chunk_size = pos 1000;
    max_tasks_per_child = some (pos 50_000);
    in_flight_batches = pos 4;
    stream_cut = none;
    cut_on = "wire";
    fast_status = false;
    accept_encoding = "impersonate";
    http_version = "auto";
    verify_ssl = true;
    follow_redirects = false;
    max_redirects = pos 10;
    timeout = F.of_nat 30;
    total_timeout = none;
    retries = pos 2;
    retry_non_idempotent = false;
    impersonate = "chrome";
    respect_robots = false;
    per_domain_rate_limit = none;
    allowlist = [];
    denylist = [];
    identity_header = none;
    authorization = none;
    adaptive_rate = none;
    checkpoint = none;
  }
