-- ===== src/Decompress/Codings.antt =====
-- The codings of a Content-Encoding header, undone by src/bulk_http/decompress.py.
use bulk_http.Prelude.{
  String, false, some, List, [], ◌∷◌, ◌++◌, ◌≡◌, ◌≢◌, ◌⊎◌, inl, inr, refl, ap, ◌∙◌,
}
use mathlib.Core.List.{reverse, reverse-append}
use bulk_http.Except.{ok}
use bulk_http.Bytes.{Bytes}
use bulk_http.Texts.{Texts}
use bulk_http.Decompress.{
  Codecs, gzip_bits, zlib_bits, raw_bits, or_bytes, inflate, gzip, deflate, decode_chunks, undo,
  is_identity, decoder_for, codings_of, decompress_fragment,
}
use bulk_http.Decompress.Encoders.{
  Encoders, Coded, plain, same, gzipped, deflated, in_brotli, in_zstd, inflate-Inflates,
  or_bytes_left, decode_chunks_lem,
}

module _ {C : Codecs} (K : Encoders C) where
  undo-identity : (cs : List String) (out : Bytes) → undo C ("identity" ∷ cs) out ≡ undo C cs out
  unfolding undo
  undo-identity cs out = refl

  undo-decoder :
      (c : String) (cs : List String) (decode : Bytes → Bytes) (x y : Bytes)
      → is_identity c ≡ false
      → decoder_for C c ≡ some decode
      → decode y ≡ x
      → undo C (c ∷ cs) y ≡ undo C cs x
  unfolding undo
  undo-decoder c cs decode x y h k e = rw (h, k, e) refl

  undo_gzip :
      (c : String) (cs : List String) (x : Bytes)
      → (c ≡ "gzip") ⊎ (c ≡ "x-gzip")
      → undo C (c ∷ cs) (K.gzip_encode x) ≡ undo C cs x
  unfolding decoder_for gzip
  undo_gzip c cs x which =
      let back = inflate-Inflates C gzip_bits (K.gzip_encode x) x (K.gzip_law x) in
      elim which [
        | inl e ↦ rw e (undo-decoder "gzip" cs (gzip C) x _ refl refl back)
        | inr e ↦ rw e (undo-decoder "x-gzip" cs (gzip C) x _ refl refl back)
      ]

  undo_deflate :
      (cs : List String) (x : Bytes)
      → x ≢ []
      → undo C ("deflate" ∷ cs) (K.zlib_encode x) ≡ undo C cs x
  unfolding decoder_for deflate
  undo_deflate cs x ne =
      let back = inflate-Inflates C zlib_bits (K.zlib_encode x) x (K.zlib_law x) in
      undo-decoder "deflate" cs (deflate C) x (K.zlib_encode x) refl refl (
        ap (λ b. or_bytes b (inflate C (K.zlib_encode x) raw_bits)) back
        ∙ or_bytes_left x (inflate C (K.zlib_encode x) raw_bits) ne)

  undo_brotli :
      (cs : List String) (x : Bytes) → undo C ("br" ∷ cs) (K.brotli_encode x) ≡ undo C cs x
  unfolding decoder_for
  undo_brotli cs x =
      undo-decoder "br" cs (decode_chunks C.brotli) x (K.brotli_encode x) refl refl
        (decode_chunks_lem C.brotli x (K.brotli_encode x) (K.brotli_law x))

  undo_zstd : (cs : List String) (x : Bytes) → undo C ("zstd" ∷ cs) (K.zstd_encode x) ≡ undo C cs x
  unfolding decoder_for
  undo_zstd cs x =
      undo-decoder "zstd" cs (decode_chunks C.zstd) x (K.zstd_encode x) refl refl
        (decode_chunks_lem C.zstd x (K.zstd_encode x) (K.zstd_law x))

  reverse-snoc : (cs : List String) (c : String) → reverse (cs ++ c ∷ []) ≡ c ∷ reverse cs
  reverse-snoc cs c = reverse-append cs (c ∷ [])

  undo-Coded :
      {body : Bytes} {cs : List String} {y : Bytes}
      → Coded K body cs y
      → undo C (reverse cs) y ≡ ok body
  unfolding undo
  undo-Coded plain = refl
  undo-Coded (same {cs = cs} {x = x} rest) =
      rw (reverse-snoc cs "identity", undo-identity (reverse cs) x, undo-Coded rest) refl
  undo-Coded (gzipped {cs = cs} {x = x} c which rest) =
      rw (reverse-snoc cs c, undo_gzip c (reverse cs) x which, undo-Coded rest) refl
  undo-Coded (deflated {cs = cs} {x = x} ne rest) =
      rw (reverse-snoc cs "deflate", undo_deflate (reverse cs) x ne, undo-Coded rest) refl
  undo-Coded (in_brotli {cs = cs} {x = x} rest) =
      rw (reverse-snoc cs "br", undo_brotli (reverse cs) x, undo-Coded rest) refl
  undo-Coded (in_zstd {cs = cs} {x = x} rest) =
      rw (reverse-snoc cs "zstd", undo_zstd (reverse cs) x, undo-Coded rest) refl

  -- A body that was encoded by the encoders of the codings which a header names, in the header's
  -- order, comes back whole: gzip, x-gzip, deflate in its zlib format, which is applied to nothing
  -- empty, br, zstd and identity. It is assumed that zlib and the streaming decoders undo their
  -- encoders. The header is not just empty or identity.
  pub decompress-Coded :
      (T : Texts) (header : String) (body y : Bytes)
      → is_identity (T.lower (T.strip_text header)) ≡ false
      → Coded K body (codings_of T (T.lower (T.strip_text header))) y
      → decompress_fragment C T y (some header) ≡ ok body
  unfolding decompress_fragment
  decompress-Coded T header body y h coded = rw (h, undo-Coded coded)
