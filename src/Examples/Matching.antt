-- ===== src/Examples/Matching.antt =====
-- Responses, hosts and codings.
use bulk_http.Prelude.{
  ℕ, ◌≡◌, ◌↔◌, refl, ap, inl, ◌∙◌, arith, concat, append-nil, true, String, List, [], ◌∷◌, Option,
  none, some,
}
use bulk_http.Prelude.Int.{pos}
use bulk_http.Except.{ok}
use bulk_http.Floats.Millis.{millis}
use bulk_http.Bytes.{Bytes}
use bulk_http.Texts.{Texts}
use bulk_http.Models.{exactly}
use bulk_http.Decompress.{Codecs, Decoder, codings_of, decompress_fragment}
use bulk_http.Decompress.Encoders.{feed_all, Inflates, Encoders, Coded, plain, gzipped, in_brotli}
use bulk_http.Decompress.Codings.{decompress-Coded}
use bulk_http.Evaluate.{Libraries, new_matcher, evaluate}
use bulk_http.Evaluate.Conditions.{MatchesAll, evaluate-MatchesAll}
use bulk_http.Compliance.Filter.{ComplianceFilter, is_allowed}
use bulk_http.Compliance.Filter.Domains.{Permitted, is_allowed-Permitted}

-- texts in lower case, with no blank around and one coding
abbrev pub texts : Texts
texts = record { lower = λ s. s; strip_text = λ s. s; split_commas = λ s. s ∷ [] }

-- a decoder that passes its input on
abbrev pub decoder : Decoder
decoder = record { State = ℕ; start = 0; feed = λ s chunk. some (chunk, s) }

-- a zlib whose streams carry one byte in front
abbrev pub without_first : Bytes → Option Bytes
without_first [] = none
without_first (c ∷ cs) = some cs

abbrev pub codecs : Codecs
codecs = record {
  zlib_decompress = λ wbits. without_first;
  zlib_flush = λ wbits body. some [];
  brotli = decoder;
  zstd = decoder;
}

abbrev pub filter : ComplianceFilter
filter = record {
  allowlist = [];
  denylist = "b.test" ∷ [];
  identity_header = none;
  authorization = none;
}

is_allowed-Permitted_example :
    (is_allowed (λ url. ok (some "a.b.test")) filter "https://a.b.test/" ≡ ok true)
    ↔ Permitted filter "a.b.test"
is_allowed-Permitted_example =
    is_allowed-Permitted (λ url. ok (some "a.b.test")) filter "https://a.b.test/" (some "a.b.test")
      refl

-- an encoder for gzip that writes a byte in front, and one for brotli that changes nothing
decoder_law :
    (n : ℕ) (x : Bytes) (chunks : List Bytes)
    → concat chunks ≡ x
    → feed_all decoder n chunks ≡ some x
unfolding feed_all
decoder_law n x chunks e = all n chunks ∙ ap some e
  where
    all : (m : ℕ) (chunks' : List Bytes) → feed_all decoder m chunks' ≡ some (concat chunks')
    all m [] = refl
    all m (chunk ∷ chunks') = ground (arith, all m chunks')

abbrev encoders : Encoders codecs
unfolding Inflates
encoders = record {
  gzip_encode = λ x. 31 ∷ x;
  zlib_encode = λ x. 31 ∷ x;
  brotli_encode = λ x. x;
  zstd_encode = λ x. x;
  gzip_law = λ x. (x, [], refl, refl, append-nil x);
  zlib_law = λ x. (x, [], refl, refl, append-nil x);
  brotli_law = decoder_law 0;
  zstd_law = decoder_law 0;
}

abbrev two_codings : Texts
two_codings = record { lower = λ s. s; strip_text = λ s. s; split_commas = λ s. "br" ∷ "gzip" ∷ [] }

-- a page behind two codings
abbrev page_Coded : Coded encoders (60 ∷ 62 ∷ []) ("br" ∷ "gzip" ∷ []) (31 ∷ 60 ∷ 62 ∷ [])
unfolding encoders
page_Coded = gzipped {cs = "br" ∷ []} "gzip" (inl refl) (in_brotli {cs = []} plain)

decompress-Coded_example :
    decompress_fragment codecs two_codings (31 ∷ 60 ∷ 62 ∷ []) (some "br,gzip") ≡ ok (60 ∷ 62 ∷ [])
unfolding codings_of
decompress-Coded_example =
    decompress-Coded encoders two_codings "br,gzip" (60 ∷ 62 ∷ []) (31 ∷ 60 ∷ 62 ∷ []) refl
      page_Coded

abbrev pub libraries : Libraries millis
libraries = record {
  texts = texts;
  codecs = codecs;
  Automaton = List String;
  make_automaton = λ needles. needles;
  matches = λ needles text. needles;
  decode_text = λ body. "";
  loads_json = λ body. none;
  Dom = ℕ;
  parse_html = λ body. 0;
}

evaluate-MatchesAll_example :
    (evaluate {F = millis} libraries
        (some 200)
        "https://a.test/"
        []
        (60 ∷ [])
        none
        (new_matcher libraries ("page" ∷ []))
        (some (exactly (pos 200)))
        none
        []
      ≡ ok (true, none))
    ↔ MatchesAll {F = millis} libraries
        (some 200)
        "https://a.test/"
        []
        (60 ∷ [])
        none
        ("page" ∷ [])
        (some (exactly (pos 200)))
        none
        []
        none
evaluate-MatchesAll_example =
    evaluate-MatchesAll {F = millis} libraries (some 200) "https://a.test/" [] (60 ∷ []) none
      ("page" ∷ []) (some (exactly (pos 200))) none [] none
