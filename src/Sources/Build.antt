-- ===== src/Sources/Build.antt =====
-- src/bulk_http/sources/_build.py: a request from a mapping of fields. Python's conversions of a
-- value of any type are the parameter `Conversions`.
use bulk_http.Prelude.{
  String, Bool, true, false, Option, none, some, List, [], ◌∷◌, ◌++◌, ◌==◌, contains, string_keys,
  map, if◌then◌else◌,
}
use bulk_http.Prelude.Int.{ℤ}
use bulk_http.Except.{Except, ok, raise, value_error, type_error, ◌>>=◌}
use bulk_http.Floats.{Floats}
use bulk_http.Bytes.{Bytes}
use bulk_http.Dict.{Dict, put, update}
use bulk_http.Texts.{Texts}
use bulk_http.Value.{Value, bool, str, list, Meta}
use bulk_http.Models.{Request, Expected, exactly, one_of, bare_request, post_init}

abbrev pub str_fields : List String
str_fields = "cut_on" ∷ "impersonate" ∷ "http_version" ∷ "accept_encoding" ∷ "proxy" ∷ []

abbrev pub dict_fields : List String
dict_fields = "headers" ∷ "cookies" ∷ []

abbrev pub int_fields : List String
int_fields = "stream_cut" ∷ "max_redirects" ∷ "retries" ∷ []

abbrev pub float_fields : List String
float_fields = "timeout" ∷ "total_timeout" ∷ []

abbrev pub bool_fields : List String
bool_fields = "fast_status" ∷ "verify_ssl" ∷ "follow_redirects" ∷ "retry_non_idempotent" ∷ []

abbrev pub true_words : List String
true_words = "1" ∷ "true" ∷ "yes" ∷ "y" ∷ "on" ∷ []

abbrev pub false_words : List String
false_words = "0" ∷ "false" ∷ "no" ∷ "n" ∷ "off" ∷ "" ∷ []

-- str(v), s.upper(), s.encode(), bytes(v), int(v), float(v), dict(v) to strings and to values, and
-- the elements of an iterable, or none where there are none to go through.
pub record Conversions (F : Floats) : Type 0 where
  pub to_str : Value F → String
  pub upper : String → String
  pub encode : String → Bytes
  pub to_bytes : Value F → Except Bytes
  pub to_int : Value F → Except ℤ
  pub to_float : Value F → Except F.Float
  pub to_headers : Value F → Except (Dict String String)
  pub to_meta : Value F → Except (Meta F)
  pub elements : Value F → Option (List (Value F))

-- What build_request has gathered: the keyword arguments, as a request whose url may be missing,
-- the metadata and the needles.
pub record Draft (F : Floats) : Type 0 where
  pub url : Option String
  pub kwargs : Request F
  pub extra_meta : Meta F
  pub needles : List String

module _ {F : Floats} (T : Texts) (V : Conversions F) where
  -- _to_bool
  unfoldable pub to_bool : Value F → Except Bool
  to_bool (bool b) = ok b
  to_bool v =
      let text = T.lower (T.strip_text (V.to_str v)) in
      if contains true_words text
      then ok true
      else if contains false_words text
      then ok false
      else raise value_error

  -- [int(v) for v in value]
  unfoldable pub to_ints : List (Value F) → Except (List ℤ)
  to_ints [] = ok []
  to_ints (v ∷ vs) = V.to_int v >>= λ z. to_ints vs >>= λ zs. ok (z ∷ zs)

  -- `needles`: a text, the elements of an iterable, or anything else
  abbrev pub needles_in : Value F → List String
  needles_in (str s) = s ∷ []
  needles_in v = elim (V.elements v) [ none ↦ V.to_str v ∷ [] | some vs ↦ map V.to_str vs ]

  -- `expected_status`: of the values that are modelled, only a list is one of the four collections
  unfoldable pub to_expected : Value F → Except Expected
  unfolding to_ints
  to_expected (list items) = elim (V.elements (list items)) [
    | none ↦ raise type_error
    | some vs ↦ to_ints vs >>= λ zs. ok (one_of zs)
  ]
  to_expected v = V.to_int v >>= λ z. ok (exactly z)

  -- `body`
  abbrev pub to_body : Value F → Except Bytes
  to_body (str s) = ok (V.encode s)
  to_body v = V.to_bytes v

  -- kwargs[key] = value for the fields of each kind
  abbrev pub set_str : String → String → Request F → Request F
  set_str key s r =
      if key == "cut_on"
      then record r { cut_on = some s }
      else if key == "impersonate"
      then record r { impersonate = some s }
      else if key == "http_version"
      then record r { http_version = some s }
      else if key == "accept_encoding"
      then record r { accept_encoding = some s }
      else record r { proxy = some s }

  abbrev pub set_dict : String → Dict String String → Request F → Request F
  set_dict key d r =
      if key == "headers" then record r { headers = some d } else record r { cookies = some d }

  abbrev pub set_int : String → ℤ → Request F → Request F
  set_int key z r =
      if key == "stream_cut"
      then record r { stream_cut = some z }
      else if key == "max_redirects"
      then record r { max_redirects = some z }
      else record r { retries = some z }

  abbrev pub set_float : String → F.Float → Request F → Request F
  set_float key t r =
      if key == "timeout"
      then record r { timeout = some t }
      else record r { total_timeout = some t }

  abbrev pub set_bool : String → Bool → Request F → Request F
  set_bool key b r =
      if key == "fast_status"
      then record r { fast_status = some b }
      else if key == "verify_ssl"
      then record r { verify_ssl = some b }
      else if key == "follow_redirects"
      then record r { follow_redirects = some b }
      else record r { retry_non_idempotent = some b }

  abbrev pub with_kwargs : Draft F → (Request F → Request F) → Draft F
  with_kwargs d set = record d { kwargs = set d.kwargs }

  -- the branches from `body` on
  unfoldable pub build_other : String → Value F → Draft F → Except (Draft F)
  unfolding to_expected
  build_other key v d =
      if key == "body"
      then (to_body v >>= λ b. ok (with_kwargs d (λ r. record r { body = some b })))
      else if key == "needle"
      then ok (record d { needles = d.needles ++ V.to_str v ∷ [] })
      else if key == "needles"
      then ok (record d { needles = d.needles ++ needles_in v })
      else if key == "expected_status"
      then (to_expected v >>= λ e. ok (with_kwargs d (λ r. record r { expected_status = some e })))
      else if key == "meta"
      then (V.to_meta v >>= λ m. ok (record d { extra_meta = update d.extra_meta m }))
      else ok (record d { extra_meta = put key v d.extra_meta })

  -- the body of the loop of build_request
  unfoldable pub build_field : String → Value F → Draft F → Except (Draft F)
  unfolding build_other to_bool
  build_field key v d =
      if key == "url"
      then ok (record d { url = some (V.to_str v) })
      else if key == "method"
      then ok (with_kwargs d (λ r. record r { method = V.upper (V.to_str v) }))
      else if contains str_fields key
      then ok (with_kwargs d (set_str key (V.to_str v)))
      else if contains dict_fields key
      then (V.to_headers v >>= λ h. ok (with_kwargs d (set_dict key h)))
      else if contains int_fields key
      then (V.to_int v >>= λ z. ok (with_kwargs d (set_int key z)))
      else if contains float_fields key
      then (V.to_float v >>= λ t. ok (with_kwargs d (set_float key t)))
      else if contains bool_fields key
      then (to_bool v >>= λ b. ok (with_kwargs d (set_bool key b)))
      else build_other key v d

  unfoldable pub build_fields : Meta F → Draft F → Except (Draft F)
  unfolding build_field
  build_fields [] d = ok d
  build_fields ((key, v) ∷ fields) d = build_field key v d >>= build_fields fields

  -- Request(**kwargs)
  unfoldable pub finish_draft : Draft F → Except (Request F)
  unfolding post_init
  finish_draft d = elim d.url [
    | none ↦ raise type_error
    | some url ↦ post_init (record d.kwargs { url = url; needles = d.needles; meta = d.extra_meta })
  ]

  -- build_request
  unfoldable pub build_request : Meta F → Meta F → Except (Request F)
  unfolding build_fields finish_draft
  build_request fields meta =
      build_fields fields
        (record { url = none; kwargs = bare_request ""; extra_meta = meta; needles = [] })
      >>= finish_draft
