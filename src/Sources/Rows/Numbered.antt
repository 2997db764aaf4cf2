-- ===== src/Sources/Rows/Numbered.antt =====
-- The tasks of src/bulk_http/sources/text.py, numbered by src/bulk_http/sources/base.py.
use bulk_http.Prelude.{
  ℕ, suc, ◌≡◌, refl, arith, String, false, List, [], ◌∷◌, ◌==◌, string_keys, inl, inr, Bool-cases,
}
use bulk_http.Except.{ok}
use bulk_http.Floats.{Floats}
use bulk_http.Texts.{Texts}
use bulk_http.Models.{Task, bare_request, post_init}
use bulk_http.Engine.Stream.{of_list}
use bulk_http.Sources.Rows.{enumerate, text_requests, proxy_pool}

module _ {F : Floats} where
  -- the tasks of a list of URLs, from a number on
  abbrev pub url_tasks : ℕ → List String → List (Task F)
  url_tasks n [] = []
  url_tasks n (url ∷ urls) =
      record { source_id = n; request = bare_request url } ∷ url_tasks (suc n) urls

  post_init-bare_request :
      (url : String)
      → (url == "") ≡ false
      → post_init {F = F} (bare_request url) ≡ ok (bare_request url)
  unfolding post_init
  post_init-bare_request url h = ground (arith, h)

  -- A text source raises nothing: its tasks are those of the lines that are not blank, stripped, in
  -- order and numbered one after the other.
  pub text_requests-enumerate :
      (T : Texts) (lines : List String) (n : ℕ)
      → enumerate n (text_requests {F = F} T lines) ≡ of_list (url_tasks n (proxy_pool T lines))
  unfolding enumerate text_requests proxy_pool
  text_requests-enumerate T [] n = refl
  text_requests-enumerate T (line ∷ lines) n = elim (Bool-cases (T.strip_text line == "")) [
    | inl blank ↦ ground (arith, blank, text_requests-enumerate T lines n)
    | inr url ↦ ground (
      arith,
      url,
      post_init-bare_request (T.strip_text line) url,
      text_requests-enumerate T lines (suc n),
    )
  ]
