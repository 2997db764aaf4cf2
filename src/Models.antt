-- ===== src/Models.antt =====
-- src/bulk_http/models.py: requests, tasks, results and predicate contexts, with the checks that
-- their constructors make.
use bulk_http.Prelude.{
  ℕ, String, Bool, false, Option, none, some, List, [], ◌==◌, contains, string_keys, not,
}
use bulk_http.Prelude.Int.{ℤ, lt_num}
use bulk_http.Except.{Except, ok, value_error, ◌>>◌, raise_if}
use bulk_http.Floats.{Floats}
use bulk_http.Dict.{Dict}
use bulk_http.Value.{Value, Meta}
use bulk_http.Types.{methods, cut_on_values, http_versions, accept_encodings, ctx_types}

-- int | frozenset[int]
pub data Expected : Type 0 where
  exactly : ℤ → Expected
  one_of : List ℤ → Expected

pub record Request (F : Floats) : Type 0 where
  pub url : String
  pub method : String
  pub headers : Option (Dict String String)
  pub cookies : Option (Dict String String)
  pub body : Option (List ℕ)
  pub needles : List String
  pub expected_status : Option Expected
  pub meta : Meta F
  pub proxy : Option String
  pub stream_cut : Option ℤ
  pub cut_on : Option String
  pub fast_status : Option Bool
  pub follow_redirects : Option Bool
  pub max_redirects : Option ℤ
  pub verify_ssl : Option Bool
  pub impersonate : Option String
  pub http_version : Option String
  pub accept_encoding : Option String
  pub timeout : Option F.Float
  pub total_timeout : Option F.Float
  pub retries : Option ℤ
  pub retry_non_idempotent : Option Bool

-- `o is not None and p(o)`
abbrev pub set_and {ℓ} : {A : Type ℓ} → Option A → (A → Bool) → Bool
set_and none p = false
set_and (some a) p = p a

-- `z <= 0`
abbrev pub le_zero : ℤ → Bool
le_zero z = lt_num z 1

module _ {F : Floats} where
  -- Request.__post_init__
  unfoldable pub post_init : Request F → Except (Request F)
  post_init r = do
    raise_if (r.url == "") value_error
    raise_if (not (contains methods r.method)) value_error
    raise_if (set_and r.cut_on (λ v. not (contains cut_on_values v))) value_error
    raise_if (set_and r.http_version (λ v. not (contains http_versions v))) value_error
    raise_if (set_and r.accept_encoding (λ v. not (contains accept_encodings v))) value_error
    raise_if (set_and r.stream_cut le_zero) value_error
    raise_if (set_and r.max_redirects (λ z. lt_num z 0)) value_error
    raise_if (set_and r.timeout (λ t. F.le_f t F.zero_f)) value_error
    raise_if (set_and r.total_timeout (λ t. F.le_f t F.zero_f)) value_error
    raise_if (set_and r.retries (λ z. lt_num z 0)) value_error
    ok r

  -- Request(url=url): every other field at its default
  abbrev pub bare_request : String → Request F
  bare_request url = record {
    url = url;
    method = "GET";
    headers = none;
    cookies = none;
    body = none;
    needles = [];
    expected_status = none;
    meta = [];
    proxy = none;
    stream_cut = none;
    cut_on = none;
    fast_status = none;
    follow_redirects = none;
    max_redirects = none;
    verify_ssl = none;
    impersonate = none;
    http_version = none;
    accept_encoding = none;
    timeout = none;
    total_timeout = none;
    retries = none;
    retry_non_idempotent = none;
  }

-- The constructor numbers tasks by `enumerate`, so `source_id >= 0` holds of every ℕ.
pub record Task (F : Floats) : Type 0 where
  pub source_id : ℕ
  pub request : Request F

pub record Result (F : Floats) : Type 0 where
  pub source_id : ℕ
  pub url : String
  pub status : Option ℕ
  pub matched : Bool
  pub content : Meta F
  pub meta : Meta F
  pub error : Option String
  pub elapsed : Option F.Float

-- `D` is the type of a parsed HTML tree.
pub record EvalContext (F : Floats) (D : Type 0) : Type 0 where
  pub type : String
  pub status : ℕ
  pub url : String
  pub headers : Dict String String
  pub meta : Meta F
  pub raw : List ℕ
  pub parsed : Option (Value F)
  pub dom : Option D
  pub text : Option String

-- EvalContext.__post_init__
unfoldable pub check_context :
    {F : Floats} {D : Type 0} → EvalContext F D → Except (EvalContext F D)
check_context c = do raise_if (not (contains ctx_types c.type)) value_error; ok c
