-- ===== src/Sinks/CsvExport/Cells.antt =====
-- A cell of src/bulk_http/sinks/csv_export.py on a line of src/bulk_http/sinks/serialize.py.
use bulk_http.Prelude.{
  ◌≡◌, refl, ap, sym, subst, arith, String, true, false, List, [], ◌∷◌, ◌==◌, contains, string_keys,
  map, map_option, inl, inr, Bool-cases, All, if◌then◌else◌,
}
use bulk_http.Prelude.Int.{pos}
use bulk_http.Except.{ok}
use bulk_http.Floats.{Floats}
use bulk_http.Dict.{get, get_or}
use bulk_http.Value.{Value, null, int, bool, str, float, Meta}
use bulk_http.Models.{Result}
use bulk_http.Sources.Rows.{dict_of}
use bulk_http.Sinks.Serialize.{as_fields, or_null, payload}
use bulk_http.Sinks.CsvExport.{base_fields, value_of, blank_null, cells}

module _ {F : Floats} where
  -- what a result says in a column
  unfoldable pub raw_cell : Result F → String → Value F
  raw_cell r column =
      if "source_id" == column
      then int (pos r.source_id)
      else if "url" == column
      then str r.url
      else if "status" == column
      then or_null (map_option (λ s. int (pos s)) r.status)
      else if "matched" == column
      then bool r.matched
      else if "error" == column
      then or_null (map_option (λ e. str e) r.error)
      else if "elapsed" == column
      then or_null (map_option (λ t. float t) r.elapsed)
      else get_or column null r.meta

  abbrev pub cell_of : Result F → String → Value F
  cell_of r column = blank_null (raw_cell r column)

  pub dict_of-as_fields : (m : Meta F) → dict_of (as_fields m) ≡ m
  dict_of-as_fields [] = refl
  dict_of-as_fields ((k, v) ∷ m) = ap (◌∷◌ (k, v)) (dict_of-as_fields m)

  Reads : Result F → String → Type 0
  Reads r column = value_of (payload r) column ≡ ok (raw_cell r column)

  -- the fields that every line has
  base-Reads : (r : Result F) → All (Reads r) base_fields
  unfolding Reads value_of payload raw_cell get
  base-Reads r = (refl, (refl, (refl, (refl, (refl, (refl, tt))))))

  listed-Reads :
      (r : Result F) (column : String) (names : List String)
      → All (Reads r) names
      → contains names column ≡ true
      → Reads r column
  listed-Reads r column [] all h = ground (arith, h)
  listed-Reads r column (name ∷ names) all h = elim (Bool-cases (name == column)) [
    | inl same ↦ subst (Reads r) ((string_keys.same_iff name column).0 same) all.0
    | inr other ↦ listed-Reads r column names all.1 (ground (arith, h, other))
  ]

  raw_cell-meta :
      (r : Result F) (column : String)
      → contains base_fields column ≡ false
      → raw_cell r column ≡ get_or column null r.meta
  unfolding raw_cell
  raw_cell-meta r column h = ground (arith, h)

  value_of-payload : (r : Result F) (column : String) → Reads r column
  unfolding Reads value_of payload get
  value_of-payload r column = elim (Bool-cases (contains base_fields column)) [
    | inl listed ↦ listed-Reads r column base_fields (base-Reads r) listed
    | inr other ↦ rw (other, dict_of-as_fields) (ap ok (sym (raw_cell-meta r column other)))
  ]

  pub cells-payload :
      (r : Result F) (columns : List String)
      → cells (payload r) columns ≡ ok (map (cell_of r) columns)
  unfolding cells Reads
  cells-payload r [] = refl
  cells-payload r (column ∷ columns) = rw (value_of-payload r column, cells-payload r columns) refl
