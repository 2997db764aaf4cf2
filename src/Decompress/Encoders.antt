-- ===== src/Decompress/Encoders.antt =====
-- The encoders whose work src/bulk_http/decompress.py undoes, what is relied on of the libraries, and
-- the pieces that the loops of _brotli and _zstd feed to a decoder.
use bulk_http.Prelude.{
  ℕ, zero, suc, ◌≤◌, String, Option, none, some, List, [], ◌∷◌, ◌++◌, ◌≡◌, ◌≢◌, ◌⊎◌, inl, inr, refl,
  ap, ◌∙◌, concat, length, take, drop, take-append-drop, length-drop, ◌<◌, Option-cases, arith,
}
use bulk_http.Prelude.Int.{ℤ}
use bulk_http.Bytes.{Bytes}
use bulk_http.Decompress.{
  Codecs, Decoder, gzip_bits, zlib_bits, or_bytes, inflate, feed_chunks, decode_chunks, chunk_bytes,
}

-- What a decoder gives for a body in pieces, if no piece makes it raise.
unfoldable pub feed_all : (D : Decoder) → D.State → List Bytes → Option Bytes
feed_all D s [] = some []
feed_all D s (chunk ∷ chunks) = elim (D.feed s chunk) [
  | none ↦ none
  | some (out, s') ↦ elim (feed_all D s' chunks) [ none ↦ none | some more ↦ some (out ++ more) ]
]

-- zlib gives a body back in two parts
unfoldable pub Inflates : Codecs → ℤ → Bytes → Bytes → Type 0
Inflates C wbits y x =
    (out : Bytes) × (rest : Bytes) × (C.zlib_decompress wbits y ≡ some out)
    × (C.zlib_flush wbits y ≡ some rest)
    × (out ++ rest ≡ x)

-- The encoders of the formats, and what zlib, brotli and zstandard are documented to do with what
-- these make of a body: zlib decompresses it under the bits of the format, and the streaming
-- decoders do so however it is cut into pieces.
pub record Encoders (C : Codecs) : Type 0 where
  pub gzip_encode : Bytes → Bytes
  pub zlib_encode : Bytes → Bytes
  pub brotli_encode : Bytes → Bytes
  pub zstd_encode : Bytes → Bytes
  pub gzip_law : (x : Bytes) → Inflates C gzip_bits (gzip_encode x) x
  pub zlib_law : (x : Bytes) → Inflates C zlib_bits (zlib_encode x) x
  pub brotli_law :
      (x : Bytes) (chunks : List Bytes)
      → concat chunks ≡ brotli_encode x
      → feed_all C.brotli C.brotli.start chunks ≡ some x
  pub zstd_law :
      (x : Bytes) (chunks : List Bytes)
      → concat chunks ≡ zstd_encode x
      → feed_all C.zstd C.zstd.start chunks ≡ some x

-- `Coded K body cs y`: `y` is what the encoders of the codings `cs`, applied in order, make of
-- `body`. For an empty text the format of "deflate" is open.
pub data Coded {C : Codecs} (K : Encoders C) (body : Bytes) : List String → Bytes → Type 0 where
  plain : Coded K body [] body
  same : {cs : List String} {x : Bytes} → Coded K body cs x → Coded K body (cs ++ "identity" ∷ []) x
  gzipped :
      {cs : List String} {x : Bytes} (c : String)
      → (c ≡ "gzip") ⊎ (c ≡ "x-gzip")
      → Coded K body cs x
      → Coded K body (cs ++ c ∷ []) (K.gzip_encode x)
  deflated :
      {cs : List String} {x : Bytes}
      → x ≢ []
      → Coded K body cs x
      → Coded K body (cs ++ "deflate" ∷ []) (K.zlib_encode x)
  in_brotli :
      {cs : List String} {x : Bytes}
      → Coded K body cs x
      → Coded K body (cs ++ "br" ∷ []) (K.brotli_encode x)
  in_zstd :
      {cs : List String} {x : Bytes}
      → Coded K body cs x
      → Coded K body (cs ++ "zstd" ∷ []) (K.zstd_encode x)

-- the pieces that the loop cuts
pieces : ℕ → Bytes → List Bytes
pieces zero body = []
pieces (suc n) [] = []
pieces (suc n) (c ∷ body) = take chunk_bytes (c ∷ body) ∷ pieces n (drop chunk_bytes (c ∷ body))

shorter :
    (k n c : ℕ) (body : Bytes) → 0 < k → length (c ∷ body) ≤ suc n → length (drop k (c ∷ body)) ≤ n
shorter k n c body h few = omega (arith, length-drop k (c ∷ body), few)

concat-pieces : (n : ℕ) (body : Bytes) → length body ≤ n → concat (pieces n body) ≡ body
unfolding pieces
concat-pieces zero [] h = refl
concat-pieces zero (c ∷ body) h = absurd (omega arith)
concat-pieces (suc n) [] h = refl
concat-pieces (suc n) (c ∷ body) h =
    ap (λ t. take chunk_bytes (c ∷ body) ++ t)
      (concat-pieces n (drop chunk_bytes (c ∷ body)) (shorter chunk_bytes n c body (omega arith) h))
    ∙ take-append-drop chunk_bytes (c ∷ body)

feed_step :
    (D : Decoder) (s : D.State) (chunk : Bytes) (chunks : List Bytes) (x : Bytes)
    (go : D.State → Bytes)
    → ((s' : D.State) (y : Bytes) → feed_all D s' chunks ≡ some y → go s' ≡ y)
    → feed_all D s (chunk ∷ chunks) ≡ some x
    → (elim (D.feed s chunk) [ none ↦ [] | some (out, s') ↦ out ++ go s' ]) ≡ x
unfolding feed_all
feed_step D s chunk chunks x go next h = elim (Option-cases (D.feed s chunk)) [
  | inl e ↦ absurd (ground (arith, e, h))
  | inr ((out, s'), e) ↦ elim (Option-cases (feed_all D s' chunks)) [
    | inl e' ↦ absurd (ground (arith, e, e', h))
    | inr (more, e') ↦ ground (arith, e, e', h, next s' more e')
  ]
]

feed_chunks-pieces :
    (D : Decoder) (n : ℕ) (s : D.State) (body x : Bytes)
    → feed_all D s (pieces n body) ≡ some x
    → feed_chunks D n s body ≡ x
unfolding feed_chunks pieces feed_all
feed_chunks-pieces D zero s body x h = ground (arith, h)
feed_chunks-pieces D (suc n) s [] x h = ground (arith, h)
feed_chunks-pieces D (suc n) s (c ∷ body) x h =
    feed_step D s (take chunk_bytes (c ∷ body)) (pieces n (drop chunk_bytes (c ∷ body))) x
      (λ s'. feed_chunks D n s' (drop chunk_bytes (c ∷ body)))
      (λ s' y. feed_chunks-pieces D n s' (drop chunk_bytes (c ∷ body)) y) h

pub decode_chunks_lem :
    (D : Decoder) (x y : Bytes)
    → ((chunks : List Bytes) → concat chunks ≡ y → feed_all D D.start chunks ≡ some x)
    → decode_chunks D y ≡ x
unfolding decode_chunks
decode_chunks_lem D x y law =
    feed_chunks-pieces D (length y) D.start y x
      (law (pieces (length y) y) (concat-pieces (length y) y (omega arith)))

pub inflate-Inflates :
    (C : Codecs) (wbits : ℤ) (y x : Bytes) → Inflates C wbits y x → inflate C y wbits ≡ x
unfolding inflate Inflates
inflate-Inflates C wbits y x (out, rest, e, e', all) = rw (inflate, e, e') all

pub or_bytes_left : (x y : Bytes) → x ≢ [] → or_bytes x y ≡ x
or_bytes_left [] y ne = absurd (ne refl)
or_bytes_left (c ∷ x) y ne = refl
