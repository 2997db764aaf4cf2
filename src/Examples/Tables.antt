-- ===== src/Examples/Tables.antt =====
-- Two results in two files, exported, and a gateway whose ids run out of its generator one by one.
use bulk_http.Prelude.{
  ℕ, ◌+◌, suc, ◌≡◌, refl, String, true, Option, none, some, List, [], ◌∷◌, map, All, string_keys,
  nat_keys, nat_beq, if◌then◌else◌,
}
use bulk_http.Prelude.Int.{pos}
use bulk_http.Except.{Except, ok}
use bulk_http.Effects.{Stateful}
use bulk_http.Effects.Ensures.{Ensures}
use bulk_http.Dict.{get}
use bulk_http.Floats.Millis.{millis}
use bulk_http.Bytes.{Bytes}
use bulk_http.Value.{Value, int, str, dict, field}
use bulk_http.Models.{Result}
use bulk_http.Sinks.Serialize.{payload}
use bulk_http.Sinks.CsvExport.{export_csv}
use bulk_http.Sinks.CsvExport.Columns.{first_seen}
use bulk_http.Sinks.CsvExport.Results.{IsWritten, file_of, export_csv-file_of}
use bulk_http.Proxies.Backconnect.{Gateway, proxy_for, replace_from}
use bulk_http.Proxies.Backconnect.Sticky.{NeverEmpty, after_calls, proxy_for-again}

abbrev result : ℕ → Result millis
result n = record {
  source_id = n;
  url = "http://a.test";
  status = some 200;
  matched = true;
  content = [];
  meta = ("tag", str "x") ∷ [];
  error = none;
  elapsed = none;
}

-- an object is the number of its result between braces
dumps : Value millis → Bytes
dumps (dict (field k (int (pos n)) rest)) = 123 ∷ (n + 126) ∷ 125 ∷ []
dumps v = []

loads : Bytes → Option (Value millis)
unfolding payload
loads (brace ∷ c ∷ rest) = some (payload (result (if nat_beq c 126 then 0 else 1)))
loads bs = none

abbrev files : List (List (Result millis))
files = (result 0 ∷ []) ∷ (result 1 ∷ []) ∷ []

iterate : Value millis → Except (List String)
iterate v = ok []

-- a row is the number of its cells
format : List (Value millis) → Bytes
format [] = []
format (v ∷ vs) = 44 ∷ format vs

files-IsWritten : All (All (IsWritten dumps loads)) files
unfolding IsWritten dumps loads payload
files-IsWritten = (
  ((126 ∷ [], refl, (refl, (refl, (refl, tt))), refl), tt),
  (((127 ∷ [], refl, (refl, (refl, (refl, tt))), refl), tt), tt),
)

export_csv-file_of_example :
    export_csv loads iterate (λ vs. ok (format vs)) (map (file_of dumps loads) files) none none ≡ (
      ok 2,
      some (
          44 ∷ 44 ∷ 44 ∷ 44 ∷ 44 ∷ 44 ∷ 44 ∷ 44 ∷ 44 ∷ 44 ∷ 44 ∷ 44 ∷ 44 ∷ 44 ∷ 44 ∷ 44 ∷ 44 ∷ 44
          ∷ 44 ∷ 44 ∷ 44 ∷ []),
    )
unfolding format first_seen
export_csv-file_of_example =
    export_csv-file_of dumps loads iterate format files none none files-IsWritten

-- the ids one, two, two and so on
id_generator : Stateful ℕ String
id_generator n = (ok (if nat_beq n 0 then "one" else "two"), suc n)

abbrev gateway : Gateway ℕ
gateway = record { template = "http://u-{session}:p@gw:1"; sticky = []; generator = 0 }

proxy_for-again_example :
    (proxy_for id_generator (some "k") (
      after_calls id_generator
        (none ∷ some "j" ∷ some "k" ∷ [])
        (proxy_for id_generator (some "k") gateway).1)).0
    ≡ ok "http://u-one:p@gw:1"
unfolding NeverEmpty id_generator proxy_for Ensures get replace_from
proxy_for-again_example =
    proxy_for-again id_generator "k" "http://u-one:p@gw:1" (none ∷ some "j" ∷ some "k" ∷ []) gateway
      refl refl
