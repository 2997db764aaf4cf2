-- ===== src/Sources/Rows.antt =====
-- The sources of src/bulk_http/sources over what they read: items, lines of text, lines of JSON and
-- rows of the csv module, and the numbering of their tasks.
pub mod Numbered
use bulk_http.Prelude.{
  ℕ, zero, suc, ◌-◌, ◌<◌, String, Bool, true, false, Option, none, some, List, [], ◌∷◌, ◌++◌, ◌==◌,
  contains, string_keys, length, get_elem?, ltb, map, if◌then◌else◌,
}
use bulk_http.Prelude.Int.{ℤ, pos, negsuc}
use bulk_http.Except.{Error, Except, ok, raise, value_error, decode_error, index_error, ◌>>=◌}
use bulk_http.Floats.{Floats}
use bulk_http.Bytes.{Bytes, strip}
use bulk_http.Dict.{Dict, get, get_or, put}
use bulk_http.Texts.{Texts}
use bulk_http.Value.{Value, str, dict, Meta, Fields, end, field}
use bulk_http.Models.{Request, Task, bare_request, post_init}
use bulk_http.Proxies.Pool.{or_raise}
use bulk_http.Engine.Stream.{Stream, ends, breaks, item}
use bulk_http.Sources.Build.{Conversions, build_request}

-- BaseSource.__iter__, from the number of the next task
unfoldable pub enumerate : {F : Floats} → ℕ → Stream (Request F) → Stream (Task F)
enumerate n ends = ends
enumerate n (breaks x) = breaks x
enumerate n (item r requests) =
    item (record { source_id = n; request = r }) (enumerate (suc n) requests)

-- `yield request`, where making the request may raise
abbrev pub yield_made : {F : Floats} → Except (Request F) → Stream (Request F) → Stream (Request F)
yield_made (ok r) rest = item r rest
yield_made (raise x) rest = breaks x

-- a Request, or the URL of one
pub data Item (F : Floats) : Type 0 where
  made : Request F → Item F
  bare : String → Item F

module _ {F : Floats} where
  -- MemorySource._requests
  unfoldable pub memory_requests : List (Item F) → Stream (Request F)
  unfolding post_init
  memory_requests [] = ends
  memory_requests (made r ∷ items) = item r (memory_requests items)
  memory_requests (bare url ∷ items) =
      yield_made (post_init (bare_request url)) (memory_requests items)

  -- TextSource._requests
  unfoldable pub text_requests : Texts → List String → Stream (Request F)
  unfolding post_init
  text_requests T [] = ends
  text_requests T (line ∷ lines) =
      let rest = text_requests T lines in
      let url = T.strip_text line in
      if url == "" then rest else yield_made (post_init (bare_request url)) rest

-- proxy_pool
unfoldable pub proxy_pool : Texts → List String → List String
proxy_pool T [] = []
proxy_pool T (line ∷ lines) =
    let rest = proxy_pool T lines in
    let proxy = T.strip_text line in if proxy == "" then rest else proxy ∷ rest

module _ {F : Floats} where
  -- dict(obj): a decoded object has each key once
  abbrev pub dict_of : Fields F → Meta F
  dict_of end = []
  dict_of (field k v fs) = (k, v) ∷ dict_of fs

module _ {F : Floats} (T : Texts) (V : Conversions F) where
  -- an object of a line
  unfoldable pub object_request : Value F → Except (Request F)
  unfolding build_request
  object_request (dict fs) = build_request T V (dict_of fs) []
  object_request v = raise value_error

  -- JsonLinesSource._requests, where orjson.loads gives none for what is no JSON text
  unfoldable pub json_requests : (Bytes → Option (Value F)) → List Bytes → Stream (Request F)
  unfolding object_request
  json_requests loads [] = ends
  json_requests loads (raw ∷ lines) =
      let rest = json_requests loads lines in
      elim (strip raw) [
        | [] ↦ rest
        | c ∷ line ↦ elim (loads (c ∷ line)) [
          | none ↦ breaks decode_error
          | some v ↦ yield_made (object_request v) rest
        ]
      ]

-- A column mapping links an attribute to an index, or `keep` to several.
pub data Columns : Type 0 where
  one : ℤ → Columns
  several : List ℤ → Columns

-- row[idx]: a negative index counts from the end
unfoldable pub cell : List String → ℤ → Except String
cell row (pos n) = or_raise (get_elem? row n) index_error
cell row (negsuc n) =
    if ltb n (length row)
    then or_raise (get_elem? row (length row - suc n)) index_error
    else raise index_error

-- the columns to keep
unfoldable pub kept_columns : Dict String Columns → List ℤ
kept_columns mapping = elim (get "keep" mapping) [
  | some (several columns) ↦ columns
  | some (one column) ↦ []
  | none ↦ []
]

-- attr_map
unfoldable pub attr_map : Dict String Columns → Dict String ℤ
attr_map [] = []
attr_map ((key, several columns) ∷ mapping) = attr_map mapping
attr_map ((key, one column) ∷ mapping) =
    let rest = attr_map mapping in if key == "keep" then rest else (key, column) ∷ rest

-- fields[attr] = row[idx], over attr_map
unfoldable pub row_fields :
    List String → Dict String ℤ → Dict String String → Except (Dict String String)
unfolding cell
row_fields row [] fields = ok fields
row_fields row ((attr, idx) ∷ attrs) fields =
    cell row idx >>= λ text. row_fields row attrs (put attr text fields)

-- the name of a kept column: in the header, or `col` and its number, which `col` gives
abbrev pub column_name : (ℤ → String) → Option (List String) → ℤ → Except String
unfolding cell
column_name col none idx = ok (col idx)
column_name col (some header) idx = cell header idx

-- meta[name] = row[idx], over the columns to keep
unfoldable pub row_meta :
    (ℤ → String)
    → Option (List String)
    → List String
    → List ℤ
    → Dict String String
    → Except (Dict String String)
unfolding cell column_name
row_meta col header row [] meta = ok meta
row_meta col header row (idx ∷ keep) meta = column_name col header idx >>= λ name.
    cell row idx >>= λ text. row_meta col header row keep (put name text meta)

module _ {F : Floats} (T : Texts) (V : Conversions F) (col : ℤ → String)
    (mapping : Dict String Columns) where
  abbrev pub as_values : Dict String String → Meta F
  as_values d = map (λ e. (e.0, str e.1)) d

  -- What a row gives: none where it is passed over.
  unfoldable pub row_request : Option (List String) → List String → Option (Except (Request F))
  unfolding row_fields row_meta build_request attr_map kept_columns
  row_request header [] = none
  row_request header (c ∷ cs) = elim (row_fields (c ∷ cs) (attr_map mapping) []) [
    | raise x ↦ none
    | ok fields ↦ elim (row_meta col header (c ∷ cs) (kept_columns mapping) []) [
      | raise x ↦ none
      | ok meta ↦
          if get_or "url" "" fields == ""
          then none
          else some (build_request T V (as_values fields) (as_values meta))
    ]
  ]

  -- the loop over the rows
  unfoldable pub row_requests : Option (List String) → List (List String) → Stream (Request F)
  unfolding row_request
  row_requests header [] = ends
  row_requests header (row ∷ rows) =
      let rest = row_requests header rows in
      elim (row_request header row) [ none ↦ rest | some r ↦ yield_made r rest ]

  -- CsvSource._requests: with `has_header` the first row is the header, if there is one
  unfoldable pub csv_requests : Bool → List (List String) → Stream (Request F)
  unfolding row_requests
  csv_requests false rows = row_requests none rows
  csv_requests true [] = ends
  csv_requests true (header ∷ rows) = row_requests (some header) rows
