-- ===== src/Types.antt =====
-- src/bulk_http/_types.py: the literal values that the public models accept.
use bulk_http.Prelude.{String, List, [], ◌∷◌}

abbrev pub methods : List String
methods = "GET" ∷ "POST" ∷ "PUT" ∷ "DELETE" ∷ "PATCH" ∷ "HEAD" ∷ "OPTIONS" ∷ []

abbrev pub idempotent_methods : List String
idempotent_methods = "GET" ∷ "HEAD" ∷ "OPTIONS" ∷ []

abbrev pub cut_on_values : List String
cut_on_values = "wire" ∷ "decoded" ∷ []

abbrev pub http_versions : List String
http_versions = "auto" ∷ "h1" ∷ "h2" ∷ "h3" ∷ []

abbrev pub accept_encodings : List String
accept_encodings = "impersonate" ∷ "identity" ∷ []

abbrev pub ctx_types : List String
ctx_types = "json" ∷ "html" ∷ "text" ∷ []
