-- ===== src/Sinks/CsvExport/Results.antt =====
-- src/bulk_http/sinks/csv_export.py on the files that the sinks of src/bulk_http/sinks/ndjson.py
-- write.
use bulk_http.Prelude.{
  ℕ, suc, ◌+◌, ◌≡◌, refl, ap, ap₂, sym, ◌∙◌, arith, String, Option, none, some, List, [], ◌∷◌, ◌++◌,
  string_keys, map, length, append-nil, append_assoc, All, concat,
}
use bulk_http.Except.{Except, ok}
use bulk_http.Floats.{Floats}
use bulk_http.Bytes.{Bytes, newline, strip, lines_of}
use bulk_http.Bytes.Lines.{HasNoNewline, lines_of-line, strip-line}
use bulk_http.Dict.{get, keys}
use bulk_http.Value.{Value, str}
use bulk_http.Models.{Result}
use bulk_http.Engine.Stream.{Stream, item, of_list}
use bulk_http.Sinks.Serialize.{payload, result_to_line}
use bulk_http.Sinks.CsvExport.Columns.{first_seen, add_new-append, add_new-nil}
use bulk_http.Sinks.CsvExport.{
  base_fields, add_new, records_of, iter_records, infer, infer_columns, write_rows, write_csv,
  export_csv,
}
use bulk_http.Sinks.CsvExport.Cells.{cell_of, dict_of-as_fields, cells-payload}

module _ {F : Floats} where
  -- the columns of the metadata of these results, behind those that were seen
  abbrev pub add_metas : List String → List (Result F) → List String
  add_metas seen [] = seen
  add_metas seen (r ∷ rs) = add_metas (add_new seen (keys r.meta)) rs

  -- the keys of the metadata of results, one after the other
  abbrev pub meta_names : List (Result F) → List String
  meta_names rs = concat (map (λ r. keys r.meta) rs)

  add_metas_lem :
      (seen : List String) (rs : List (Result F)) → add_metas seen rs ≡ add_new seen (meta_names rs)
  unfolding add_new
  add_metas_lem seen [] = refl
  add_metas_lem seen (r ∷ rs) =
      add_metas_lem (add_new seen (keys r.meta)) rs
      ∙ add_new-append (keys r.meta) seen (meta_names rs)

module _ {F : Floats} (dumps : Value F → Bytes) (loads : Bytes → Option (Value F)) where
  -- orjson writes a result as an object on one line, and reads it back
  unfoldable pub IsWritten : Result F → Type 0
  IsWritten r =
      (inner : Bytes) × (dumps (payload r) ≡ 123 ∷ inner ++ 125 ∷ [])
      × HasNoNewline (dumps (payload r))
      × (loads (dumps (payload r)) ≡ some (payload r))

  -- a file that a sink wrote
  abbrev pub file_of : List (Result F) → Bytes
  file_of rs = concat (map (result_to_line dumps) rs)

  abbrev pub before : List (Result F) → Stream (Value F) → Stream (Value F)
  before [] others = others
  before (r ∷ rs) others = item (payload r) (before rs others)

  records_of-line :
      (r : Result F) (lines : List Bytes) (others : Stream (Value F))
      → IsWritten r
      → records_of loads ((dumps (payload r) ++ newline ∷ []) ∷ lines) others
        ≡ item (payload r) (records_of loads lines others)
  unfolding IsWritten records_of
  records_of-line r lines others (inner, braces, clean, reads) =
      let stripped : strip (dumps (payload r) ++ newline ∷ []) ≡ 123 ∷ inner ++ 125 ∷ [] =
        ap (λ t. strip (t ++ newline ∷ [])) braces ∙ strip-line inner in
      let read : loads (123 ∷ inner ++ 125 ∷ []) ≡ some (payload r) =
        ap loads (sym braces) ∙ reads in
      rw (records_of, stripped, read) refl

  records_of-file_of :
      (rs : List (Result F)) (others : Stream (Value F))
      → All IsWritten rs
      → records_of loads (lines_of (file_of rs)) others ≡ before rs others
  unfolding result_to_line IsWritten lines_of records_of
  records_of-file_of [] others h = refl
  records_of-file_of (r ∷ rs) others h =
      let rest = file_of rs in
      let (inner, braces, clean, reads) = h.0 in
      let split : lines_of (file_of (r ∷ rs))
          ≡ (dumps (payload r) ++ newline ∷ []) ∷ lines_of rest =
        ap lines_of (append_assoc (dumps (payload r)) (newline ∷ []) rest)
        ∙ lines_of-line (dumps (payload r)) rest clean in
      ap (λ ls. records_of loads ls others) split
      ∙ records_of-line r (lines_of rest) others h.0
      ∙ ap (item (payload r)) (records_of-file_of rs others h.1)

  -- the records of all files
  abbrev pub all_records : List (List (Result F)) → Stream (Value F)
  all_records files = of_list (map payload (concat files))

  before-of_list :
      (rs ss : List (Result F))
      → before rs (of_list (map payload ss)) ≡ of_list (map payload (rs ++ ss))
  before-of_list [] ss = refl
  before-of_list (r ∷ rs) ss = ap (item (payload r)) (before-of_list rs ss)

  iter_records-file_of :
      (files : List (List (Result F)))
      → All (All IsWritten) files
      → iter_records loads (map file_of files) ≡ all_records files
  unfolding iter_records
  iter_records-file_of [] h = refl
  iter_records-file_of (rs ∷ files) h =
      records_of-file_of rs _ h.0
      ∙ ap (before rs) (iter_records-file_of files h.1)
      ∙ before-of_list rs (concat files)

  module _ (iterate : Value F → Except (List String)) where
    infer-payload :
        (seen : List String) (rs : List (Result F))
        → infer loads iterate seen (of_list (map payload rs)) ≡ ok (add_metas seen rs)
    unfolding infer payload get
    infer-payload seen [] = refl
    infer-payload seen (r ∷ rs) =
        rw (dict_of-as_fields) (infer-payload (add_new seen (keys r.meta)) rs)

  module _ (format : List (Value F) → Bytes) where
    -- the rows of results
    abbrev pub rows_of : List String → List (Result F) → Bytes
    rows_of columns rs = concat (map (λ r. format (map (cell_of r) columns)) rs)

    write_rows-payload :
        (columns : List String) (rows : ℕ) (rs : List (Result F)) (out : Bytes)
        → write_rows (λ vs. ok (format vs)) columns rows (of_list (map payload rs)) out
          ≡ (ok (rows + length rs), out ++ rows_of columns rs)
    unfolding write_rows
    write_rows-payload columns rows [] out =
        ap₂ (λ n bs. (ok n, bs)) (omega arith) (sym (append-nil out))
    write_rows-payload columns rows (r ∷ rs) out =
        let line = format (map (cell_of r) columns) in
        rw (write_rows, cells-payload r columns)
          (write_rows-payload columns (suc rows) rs (out ++ line)
            ∙ ap₂ (λ n bs. (ok n, bs)) (omega arith) (append_assoc out line (rows_of columns rs)))

  module _ (iterate : Value F → Except (List String)) (format : List (Value F) → Bytes) where
    -- the columns that are given, or the base fields and those of the metadata
    abbrev pub columns_for : Option (List String) → List (Result F) → List String
    columns_for none rs = base_fields ++ first_seen (meta_names rs)
    columns_for (some columns) rs = columns

    write_csv-payload :
        (columns : List String) (rs : List (Result F))
        → write_csv (λ vs. ok (format vs)) columns (of_list (map payload rs))
          ≡ (ok (length rs), format (map (λ c. str c) columns) ++ rows_of format columns rs)
    unfolding write_csv
    write_csv-payload columns rs =
        write_rows-payload format columns 0 rs _
        ∙ ap (λ n. (ok n, format (map (λ c. str c) columns) ++ rows_of format columns rs))
            (omega arith)

    infer_columns-file_of :
        (files : List (List (Result F)))
        → All (All IsWritten) files
        → infer_columns loads iterate (map file_of files) ≡ ok (columns_for none (concat files))
    unfolding infer_columns
    infer_columns-file_of files h =
        rw
          (
            iter_records-file_of files h,
            infer-payload iterate [] (concat files),
            add_metas_lem [] (concat files),
            add_new-nil (meta_names (concat files)),
          )
          refl

    -- Exporting files that sinks wrote of results gives one row for each result, in order, behind a
    -- row with the columns: the cell of a base field is the field of the result, that of any other
    -- column is the result's metadata, and what is missing or null is blank. The columns are those
    -- that are given, or the base fields and then the keys of the metadata as they first come up.
    -- The number of rows is returned. It is assumed that orjson writes each result as an object on
    -- one line and reads it back, and that the csv module formats every row.
    pub export_csv-file_of :
        (files : List (List (Result F))) (columns : Option (List String)) (old : Option Bytes)
        → All (All IsWritten) files
        → export_csv loads iterate (λ vs. ok (format vs)) (map file_of files) columns old ≡ (
            let rs = concat files in
            let cs = columns_for columns rs in
            (ok (length rs), some (format (map (λ c. str c) cs) ++ rows_of format cs rs)))
    unfolding export_csv
    export_csv-file_of files none old h =
        rw
          (
            export_csv,
            infer_columns-file_of files h,
            iter_records-file_of files h,
            write_csv-payload (columns_for none (concat files)) (concat files),
          )
          refl
    export_csv-file_of files (some cs) old h =
        rw (iter_records-file_of files h, write_csv-payload cs (concat files)) refl
