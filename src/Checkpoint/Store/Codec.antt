-- ===== src/Checkpoint/Store/Codec.antt =====
-- What the store relies on of orjson: an object is written between braces with no line break in
-- it, it reads back, and a beginning of it, alone or with another object behind it, does not read.
use bulk_http.Prelude.{◌≡◌, ◌≢◌, Option, none, some, [], ◌∷◌, ◌++◌}
use bulk_http.Floats.{Floats}
use bulk_http.Bytes.{Bytes, newline, strip}
use bulk_http.Bytes.Lines.{HasNoNewline}
use bulk_http.Value.{Value, dict}
use bulk_http.Checkpoint.Store.{Entry, encode}

pub record Json (F : Floats) : Type 0 where
  pub dumps : Value F → Bytes
  pub loads : Bytes → Option (Value F)
  pub inner : Entry → Bytes
  pub in_braces : (e : Entry) → dumps (dict (encode e)) ≡ 123 ∷ inner e ++ 125 ∷ []
  pub one_line : (e : Entry) → HasNoNewline (dumps (dict (encode e)))
  pub loads-dumps : (e : Entry) → loads (dumps (dict (encode e))) ≡ some (dict (encode e))
  -- a proper beginning of an object is no JSON text
  pub loads_torn :
      (e : Entry) (p q : Bytes) → p ++ q ≡ dumps (dict (encode e)) → q ≢ [] → loads (strip p) ≡ none
  -- nor is the line that comes of an object written right behind such a beginning
  pub loads_glued :
      (e e' : Entry) (p q : Bytes)
      → p ++ q ≡ dumps (dict (encode e))
      → p ≢ []
      → loads (strip ((p ++ dumps (dict (encode e'))) ++ newline ∷ [])) ≡ none
