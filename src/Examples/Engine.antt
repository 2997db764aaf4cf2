-- ===== src/Examples/Engine.antt =====
-- Requests under the engine's defaults, and a source of two tasks.
use bulk_http.Prelude.{
  ◌≡◌, refl, true, false, ◌==◌, string_keys, String, List, [], ◌∷◌, Option, some,
}
use bulk_http.Except.{Except, ok}
use bulk_http.Floats.Millis.{millis}
use bulk_http.Models.{Request, Task, bare_request, post_init}
use bulk_http.Config.{default_config, check_config, effective}
use bulk_http.Config.Validity.{IsValid, effective-IsValid}
use bulk_http.Engine.Prepare.{prepare}
use bulk_http.Engine.Prepare.Kept.{Prepared, prepare-Prepared}
use bulk_http.Engine.Stream.{of_list}
use bulk_http.Sources.Rows.{enumerate, text_requests, proxy_pool}
use bulk_http.Sources.Rows.Numbered.{url_tasks, text_requests-enumerate}
use bulk_http.Examples.Matching.{texts, filter}

abbrev page : Request millis
page = bare_request "https://a.test/"

effective-IsValid_example : IsValid {F = millis} (effective {F = millis} default_config page)
unfolding check_config post_init
effective-IsValid_example =
    effective-IsValid {F = millis} default_config default_config page page refl refl

abbrev source : List (Task millis)
source =
    record { source_id = 0; request = page }
    ∷ record { source_id = 1; request = bare_request "https://b.test/" }
    ∷ []

-- the two hosts, read off the URL
abbrev hostname : String → Except (Option String)
hostname url = elim (url == "https://b.test/") [
  | true ↦ ok (some "b.test")
  | false ↦ ok (some "a.test")
]

prepare-Prepared_example :
    Prepared texts filter "needle" hostname 0 source
      (prepare texts filter "needle" hostname source 0)
prepare-Prepared_example = prepare-Prepared texts filter "needle" hostname source 0

text_requests-enumerate_example :
    enumerate 0 (text_requests {F = millis} texts ("https://a.test/" ∷ "" ∷ "https://b.test/" ∷ []))
    ≡ of_list (url_tasks 0 (proxy_pool texts ("https://a.test/" ∷ "" ∷ "https://b.test/" ∷ [])))
text_requests-enumerate_example =
    text_requests-enumerate {F = millis} texts ("https://a.test/" ∷ "" ∷ "https://b.test/" ∷ []) 0
