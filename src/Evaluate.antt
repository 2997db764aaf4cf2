-- ===== src/Evaluate.antt =====
-- src/bulk_http/evaluate: the match of the status, the search for needles, the typed context, and
-- the pipeline that joins them.
pub mod Conditions
use bulk_http.Prelude.{
  ℕ, String, Bool, true, false, Option, none, some, List, [], ◌∷◌, ◌&&◌, not, nat_beq, ◌==◌,
  string_keys, if◌then◌else◌, any,
}
use bulk_http.Prelude.Int.{ℤ, pos, negsuc}
use bulk_http.Except.{Except, ok, ◌>>=◌}
use bulk_http.Floats.{Floats}
use bulk_http.Dict.{Dict}
use bulk_http.Value.{Value, Meta}
use bulk_http.Bytes.{Bytes}
use bulk_http.Texts.{Texts, is_in, before_semicolon}
use bulk_http.Config.{or_default}
use bulk_http.Models.{Expected, exactly, one_of, EvalContext, check_context}
use bulk_http.Decompress.{Codecs, decompress_fragment}

-- The libraries that evaluation calls: the automaton of pyahocorasick, orjson, selectolax, and
-- UTF-8 decoding with replacement.
pub record Libraries (F : Floats) : Type 1 where
  pub texts : Texts
  pub codecs : Codecs
  pub Automaton : Type 0
  pub make_automaton : List String → Automaton
  -- the needles that `iter` yields
  pub matches : Automaton → String → List String
  pub decode_text : Bytes → String
  pub loads_json : Bytes → Option (Value F)
  pub Dom : Type 0
  pub parse_html : Bytes → Dom

-- status == z
abbrev pub same_int : ℕ → ℤ → Bool
same_int n (pos m) = nat_beq n m
same_int n (negsuc m) = false

unfoldable pub status_matches : Option ℕ → Option Expected → Bool
status_matches status none = true
status_matches none (some e) = false
status_matches (some s) (some (exactly z)) = same_int s z
status_matches (some s) (some (one_of zs)) = any (same_int s) zs

abbrev pub is_nil {ℓ} : {A : Type ℓ} → List A → Bool
is_nil [] = true
is_nil (x ∷ xs) = false

module _ {F : Floats} (L : Libraries F) where
  pub record PatternMatcher : Type 0 where
    pub automaton : L.Automaton
    pub is_empty : Bool

  -- PatternMatcher(needles)
  unfoldable pub new_matcher : List String → PatternMatcher
  new_matcher needles = record { automaton = L.make_automaton needles; is_empty = is_nil needles }

  -- PatternMatcher.find
  unfoldable pub find_needles : PatternMatcher → Bytes → List String
  find_needles m body = if m.is_empty then [] else L.matches m.automaton (L.decode_text body)

  -- PatternMatcher.search
  unfoldable pub search_needles : PatternMatcher → Bytes → Bool
  search_needles m body =
      if m.is_empty then false else not (is_nil (L.matches m.automaton (L.decode_text body)))

  -- _content_type
  unfoldable pub content_type : Dict String String → String
  content_type [] = ""
  content_type ((key, value) ∷ rest) =
      if L.texts.lower key == "content-type"
      then L.texts.lower (L.texts.strip_text (before_semicolon value))
      else content_type rest

  -- _classify
  unfoldable pub classify : String → String
  classify mime = if is_in "json" mime then "json" else if is_in "html" mime then "html" else "text"

  unfoldable pub build_context :
      ℕ → String → Dict String String → Bytes → Meta F → Except (EvalContext F L.Dom)
  unfolding content_type classify check_context
  build_context status url headers raw meta =
      let type = classify (content_type headers) in
      check_context (record {
        type = type;
        status = status;
        url = url;
        headers = headers;
        meta = meta;
        raw = raw;
        parsed = if type == "json" then L.loads_json raw else none;
        dom =
            if type == "json"
            then none
            else if type == "html"
            then some (L.parse_html raw)
            else none;
        text =
            if type == "json"
            then none
            else if type == "html"
            then none
            else some (L.decode_text raw);
      })

  -- What a predicate decides of a context, where it is set.
  abbrev pub Predicate : Type 0
  Predicate = Option (EvalContext F L.Dom → Except Bool)

  -- the last lines of the pipeline: the predicate, where there is one, on the context
  unfoldable pub apply_predicate :
      Predicate
      → Option ℕ
      → String
      → Dict String String
      → Bytes
      → Meta F
      → Except (Bool × Option (EvalContext F L.Dom))
  apply_predicate none status url headers decoded meta = ok (true, none)
  apply_predicate (some p) status url headers decoded meta = do
    ctx ← build_context (or_default status 0) url headers decoded meta
    verdict ← p ctx
    ok (verdict, some ctx)

  unfoldable pub evaluate :
      Option ℕ
      → String
      → Dict String String
      → Bytes
      → Option String
      → PatternMatcher
      → Option Expected
      → Predicate
      → Meta F
      → Except (Bool × Option (EvalContext F L.Dom))
  evaluate status url headers fragment encoding matcher expected predicate meta =
      if not (status_matches status expected)
      then ok (false, none)
      else (decompress_fragment L.codecs L.texts fragment encoding >>= λ decoded.
          if not matcher.is_empty && not (search_needles matcher decoded)
          then ok (false, none)
          else apply_predicate predicate status url headers decoded meta)
