-- ===== src/Decompress.antt =====
-- src/bulk_http/decompress.py: tolerant decompression of a fragment that may be cut off.
pub mod Encoders
pub mod Codings
use bulk_http.Prelude.{
  ℕ, zero, suc, String, Bool, true, false, Option, none, some, List, [], ◌∷◌, ◌++◌, ◌||◌, not, ◌==◌,
  string_keys, take, drop, length, map, keep_if, if◌then◌else◌,
}
use bulk_http.Prelude.Int.{ℤ, pos, negsuc}
use mathlib.Core.List.{reverse}
use bulk_http.Except.{Except, ok, raise, value_error, ◌>>=◌}
use bulk_http.Bytes.{Bytes}
use bulk_http.Texts.{Texts}
use bulk_http.Config.{or_default}

-- An incremental decoder of a library: `feed` gives none where it raises.
pub record Decoder : Type 1 where
  pub State : Type 0
  pub start : State
  pub feed : State → Bytes → Option (Bytes × State)

-- zlib, brotli and zstandard. `decompress` and `flush` of a zlib object each may raise.
pub record Codecs : Type 1 where
  pub zlib_decompress : ℤ → Bytes → Option Bytes
  pub zlib_flush : ℤ → Bytes → Option Bytes
  pub brotli : Decoder
  pub zstd : Decoder

abbrev pub chunk_bytes : ℕ
chunk_bytes = 8192

-- `16 + zlib.MAX_WBITS`, `zlib.MAX_WBITS` and `-zlib.MAX_WBITS`
abbrev pub gzip_bits : ℤ
gzip_bits = pos 31

abbrev pub zlib_bits : ℤ
zlib_bits = pos 15

abbrev pub raw_bits : ℤ
raw_bits = negsuc 14

abbrev pub or_empty : Option Bytes → Bytes
or_empty none = []
or_empty (some b) = b

-- `a or b` for bytes
abbrev pub or_bytes : Bytes → Bytes → Bytes
or_bytes [] b = b
or_bytes (c ∷ cs) b = c ∷ cs

module _ (C : Codecs) where
  -- _inflate
  unfoldable pub inflate : Bytes → ℤ → Bytes
  inflate body wbits = elim (C.zlib_decompress wbits body) [
    | none ↦ []
    | some out ↦ out ++ or_empty (C.zlib_flush wbits body)
  ]

  -- _gzip
  unfoldable pub gzip : Bytes → Bytes
  gzip body = inflate body gzip_bits

  -- _deflate
  unfoldable pub deflate : Bytes → Bytes
  deflate body = or_bytes (inflate body zlib_bits) (inflate body raw_bits)

-- The loop of _brotli and _zstd, on as many rounds as there are bytes: each takes one or more.
unfoldable pub feed_chunks : (D : Decoder) → ℕ → D.State → Bytes → Bytes
feed_chunks D zero s body = []
feed_chunks D (suc n) s [] = []
feed_chunks D (suc n) s (c ∷ body) = elim (D.feed s (take chunk_bytes (c ∷ body))) [
  | none ↦ []
  | some (out, s') ↦ out ++ feed_chunks D n s' (drop chunk_bytes (c ∷ body))
]

unfoldable pub decode_chunks : Decoder → Bytes → Bytes
unfolding feed_chunks
decode_chunks D body = feed_chunks D (length body) D.start body

-- _DECODERS
unfoldable pub decoder_for : Codecs → String → Option (Bytes → Bytes)
unfolding gzip deflate decode_chunks
decoder_for C coding =
    if coding == "gzip" || coding == "x-gzip"
    then some (gzip C)
    else if coding == "deflate"
    then some (deflate C)
    else if coding == "br"
    then some (decode_chunks C.brotli)
    else if coding == "zstd"
    then some (decode_chunks C.zstd)
    else none

-- coding in ("", "identity")
abbrev pub is_identity : String → Bool
is_identity coding = coding == "" || coding == "identity"

-- the loop of decompress_fragment, over the codings in the order in which they are undone
unfoldable pub undo : Codecs → List String → Bytes → Except Bytes
undo C [] out = ok out
undo C (coding ∷ rest) out =
    if is_identity coding then undo C rest out else elim (decoder_for C coding) [
      | none ↦ raise value_error
      | some decode ↦ undo C rest (decode out)
    ]

-- [part.strip() for part in normalized.split(",") if part.strip()]
unfoldable pub codings_of : Texts → String → List String
codings_of T s = keep_if (λ part. not (part == "")) (map T.strip_text (T.split_commas s))

unfoldable pub decompress_fragment : Codecs → Texts → Bytes → Option String → Except Bytes
unfolding undo codings_of
decompress_fragment C T body encoding =
    let normalized = T.lower (T.strip_text (or_default encoding "")) in
    if is_identity normalized then ok body else undo C (reverse (codings_of T normalized)) body
