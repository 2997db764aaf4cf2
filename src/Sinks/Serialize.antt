-- ===== src/Sinks/Serialize.antt =====
-- src/bulk_http/sinks/serialize.py: one line of output per result, for results that orjson
-- serializes; line_or_raise of Engine.Spawn has the others. orjson is a parameter.
use bulk_http.Prelude.{ℕ, Option, none, some, List, [], ◌∷◌, ◌++◌, map_option}
use bulk_http.Prelude.Int.{pos}
use bulk_http.Floats.{Floats}
use bulk_http.Bytes.{newline}
use bulk_http.Value.{Value, null, bool, int, float, str, dict, Fields, end, field, Meta}
use bulk_http.Models.{Result}

module _ {F : Floats} where
  -- a dict of metadata as a JSON object
  abbrev pub as_fields : Meta F → Fields F
  as_fields [] = end
  as_fields ((k, v) ∷ rest) = field k v (as_fields rest)

  abbrev pub or_null : Option (Value F) → Value F
  or_null none = null
  or_null (some v) = v

  -- the payload of `result_to_line`
  unfoldable pub payload : Result F → Value F
  payload r = dict (
      field "source_id" (int (pos r.source_id)) (
        field "url" (str r.url) (
          field "status" (or_null (map_option (λ s. int (pos s)) r.status)) (
            field "matched" (bool r.matched) (
              field "data" (dict (as_fields r.content)) (
                field "meta" (dict (as_fields r.meta)) (
                  field "error" (or_null (map_option (λ e. str e) r.error))
                    (field "elapsed" (or_null (map_option (λ t. float t) r.elapsed)) end))))))))

  unfoldable pub result_to_line : (Value F → List ℕ) → Result F → List ℕ
  unfolding payload
  result_to_line dumps r = dumps (payload r) ++ newline ∷ []
