-- ===== src/Compliance/Filter.antt =====
-- src/bulk_http/compliance/filter.py: the domain lists, the identity header, the authorization
-- note. `hostname` is the host that urllib's `urlsplit` finds, which may raise.
pub mod Domains
use Prim.Native.String.{◌++◌}
use bulk_http.Prelude.{
  String, Bool, true, false, Option, none, some, List, [], ◌∷◌, ◌||◌, ◌==◌, string_keys, any,
  if◌then◌else◌,
}
use bulk_http.Except.{Except, ok, ◌>>=◌}
use bulk_http.Floats.{Floats}
use bulk_http.Dict.{Dict, put, keys}
use bulk_http.Value.{str, Meta}
use bulk_http.Texts.{Texts, ends_with}
use bulk_http.Config.{or_default}

pub record ComplianceFilter : Type 0 where
  pub allowlist : List String
  pub denylist : List String
  pub identity_header : Option (String × String)
  pub authorization : Option String

-- _host_matches
unfoldable pub host_matches : String → String → Bool
host_matches host entry = host == entry || ends_with host ("." ++ entry)

-- the allowlist, which restricts only if it has entries
unfoldable pub on_allowlist : List String → String → Bool
on_allowlist [] host = true
on_allowlist (entry ∷ rest) host = any (host_matches host) (entry ∷ rest)

-- the body of is_allowed, on the host
unfoldable pub host_allowed : ComplianceFilter → String → Bool
unfolding on_allowlist
host_allowed f host =
    if any (host_matches host) f.denylist then false else on_allowlist f.allowlist host

unfoldable pub is_allowed :
    (String → Except (Option String)) → ComplianceFilter → String → Except Bool
unfolding host_allowed
is_allowed hostname f url = do host ← hostname url; ok (host_allowed f (or_default host ""))

unfoldable pub apply_headers :
    Texts → ComplianceFilter → Option (Dict String String) → Dict String String
apply_headers T f headers =
    let result = or_default headers [] in
    elim f.identity_header [
      | none ↦ result
      | some (name, value) ↦
          if any (λ key. T.lower key == T.lower name) (keys result)
          then result
          else put name value result
    ]

unfoldable pub annotate_meta : {F : Floats} → ComplianceFilter → Meta F → Meta F
annotate_meta f meta = elim f.authorization [
  | none ↦ meta
  | some note ↦ put "authorization" (str note) meta
]
