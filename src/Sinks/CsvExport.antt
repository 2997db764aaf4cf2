-- ===== src/Sinks/CsvExport.antt =====
-- src/bulk_http/sinks/csv_export.py, over the contents of the files that it reads. orjson, the rows
-- that the csv module formats, and what going through metadata that is no object gives, are
-- parameters.
pub mod Cells
pub mod Columns
pub mod Results
use bulk_http.Prelude.{
  ℕ, suc, String, Bool, true, false, Option, none, some, List, [], ◌∷◌, ◌++◌, contains, string_keys,
  map, if◌then◌else◌,
}
use bulk_http.Except.{Except, ok, raise, attribute_error, decode_error, ◌>>=◌}
use bulk_http.Effects.{Stateful}
use bulk_http.Floats.{Floats}
use bulk_http.Bytes.{Bytes, strip, lines_of}
use bulk_http.Dict.{get_or, keys}
use bulk_http.Value.{Value, null, dict, end, str, Meta}
use bulk_http.Engine.Stream.{Stream, ends, breaks, item}
use bulk_http.Sources.Rows.{dict_of}

-- _BASE_FIELDS
abbrev pub base_fields : List String
base_fields = "source_id" ∷ "url" ∷ "status" ∷ "matched" ∷ "error" ∷ "elapsed" ∷ []

-- the columns with the keys that are new
unfoldable pub add_new : List String → List String → List String
add_new seen [] = seen
add_new seen (key ∷ more) = add_new (if contains seen key then seen else seen ++ key ∷ []) more

module _ {F : Floats} where
  -- what `.get` finds: only an object has it
  abbrev pub as_dict : Value F → Except (Meta F)
  as_dict (dict fs) = ok (dict_of fs)
  as_dict v = raise attribute_error

  -- record.get("meta", {})
  abbrev pub meta_of : Meta F → Value F
  meta_of = get_or "meta" (dict end)

  -- _value
  unfoldable pub value_of : Value F → String → Except (Value F)
  value_of entry column =
      if contains base_fields column
      then (as_dict entry >>= λ d. ok (get_or column null d))
      else (as_dict entry >>= λ d. as_dict (meta_of d) >>= λ m. ok (get_or column null m))

  -- `"" if value is None else value`
  abbrev pub blank_null : Value F → Value F
  blank_null null = str ""
  blank_null v = v

  -- the cells of a row
  unfoldable pub cells : Value F → List String → Except (List (Value F))
  unfolding value_of
  cells entry [] = ok []
  cells entry (column ∷ columns) =
      value_of entry column >>= λ v. cells entry columns >>= λ vs. ok (blank_null v ∷ vs)

module _ {F : Floats} (loads : Bytes → Option (Value F)) where
  -- the records of the lines of a file, in front of those of other files
  unfoldable pub records_of : List Bytes → Stream (Value F) → Stream (Value F)
  records_of [] others = others
  records_of (raw ∷ lines) others =
      let rest = records_of lines others in
      elim (strip raw) [
        | [] ↦ rest
        | c ∷ line ↦ elim (loads (c ∷ line)) [ none ↦ breaks decode_error | some v ↦ item v rest ]
      ]

  -- _iter_records
  unfoldable pub iter_records : List Bytes → Stream (Value F)
  unfolding records_of
  iter_records [] = ends
  iter_records (content ∷ contents) = records_of (lines_of content) (iter_records contents)

module _ {F : Floats} (loads : Bytes → Option (Value F))
    (iterate : Value F → Except (List String)) where
  -- the keys that `for key in record.get("meta", {})` goes through
  abbrev pub meta_keys : Value F → Except (List String)
  meta_keys entry =
      as_dict entry >>= λ d. elim (meta_of d) [ dict fs ↦ ok (keys (dict_of fs)) | v ↦ iterate v ]

  -- the loop of _infer_columns
  unfoldable pub infer : List String → Stream (Value F) → Except (List String)
  unfolding add_new
  infer seen ends = ok seen
  infer seen (breaks x) = raise x
  infer seen (item entry records) = meta_keys entry >>= λ ks. infer (add_new seen ks) records

  -- _infer_columns
  unfoldable pub infer_columns : List Bytes → Except (List String)
  unfolding infer iter_records
  infer_columns contents = infer [] (iter_records loads contents) >>= λ ks. ok (base_fields ++ ks)

module _ {F : Floats} (writerow : List (Value F) → Except Bytes) where
  -- the loop over the records, `rows` rows in, onto what was written
  unfoldable pub write_rows : List String → ℕ → Stream (Value F) → Bytes → Except ℕ × Bytes
  unfolding cells
  write_rows columns rows ends out = (ok rows, out)
  write_rows columns rows (breaks x) out = (raise x, out)
  write_rows columns rows (item entry records) out = elim (cells entry columns >>= writerow) [
    | raise x ↦ (raise x, out)
    | ok line ↦ write_rows columns (suc rows) records (out ++ line)
  ]

  -- what stands under `with open(csv_path, "w")`
  unfoldable pub write_csv : List String → Stream (Value F) → Except ℕ × Bytes
  unfolding write_rows
  write_csv columns records = elim (writerow (map (λ c. str c) columns)) [
    | raise x ↦ (raise x, [])
    | ok line ↦ write_rows columns 0 records line
  ]

module _ {F : Floats} (loads : Bytes → Option (Value F)) (iterate : Value F → Except (List String))
    (writerow : List (Value F) → Except Bytes) where
  -- export_csv, where the state is the CSV file, if there is one
  unfoldable pub export_csv : List Bytes → Option (List String) → Stateful (Option Bytes) ℕ
  unfolding infer_columns iter_records write_csv
  export_csv contents columns file =
      elim (elim columns as (λ _. Except (List String)) [
        | none ↦ infer_columns loads iterate contents
        | some cs ↦ ok cs
      ]) [
        | raise x ↦ (raise x, file)
        | ok cs ↦
            let (r, out) = write_csv writerow cs (iter_records loads contents) in (r, some out)
      ]
