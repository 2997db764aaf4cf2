-- ===== src/Bytes/Lines.antt =====
-- Lines of a file that was written a line at a time, and stripping a line of its newline.
use bulk_http.Prelude.{ℕ, false, [], ◌∷◌, ◌++◌, nat_beq, ◌≡◌, refl, ap, sym, ◌∙◌, arith, All}
use mathlib.Core.List.{reverse, reverse-append, reverse-reverse}
use bulk_http.Bytes.{Bytes, newline, lstrip, strip, lines_of}

abbrev pub HasNoNewline : Bytes → Type 0
HasNoNewline = All (λ c. nat_beq c newline ≡ false)

-- a complete line is the first line
pub lines_of-line :
    (line rest : Bytes)
    → HasNoNewline line
    → lines_of (line ++ newline ∷ rest) ≡ (line ++ newline ∷ []) ∷ lines_of rest
unfolding lines_of
lines_of-line [] rest h = refl
lines_of-line (c ∷ line) rest h = ground (arith, h.0, lines_of-line line rest h.1)

-- a last line without a newline is one line
pub lines_of-last :
    (c : ℕ) (line : Bytes) → HasNoNewline (c ∷ line) → lines_of (c ∷ line) ≡ (c ∷ line) ∷ []
unfolding lines_of
lines_of-last c [] h = ground (arith, h.0)
lines_of-last c (d ∷ line) h = ground (arith, h.0, lines_of-last d line h.1)

reverse-snoc : (cs : Bytes) (c : ℕ) → reverse (cs ++ c ∷ []) ≡ c ∷ reverse cs
reverse-snoc cs c = reverse-append cs (c ∷ [])

-- An object between braces loses only the newline behind it.
pub strip-line :
    (inner : Bytes) → strip ((123 ∷ inner ++ 125 ∷ []) ++ newline ∷ []) ≡ 123 ∷ inner ++ 125 ∷ []
unfolding strip
strip-line inner =
    ap (λ t. reverse (lstrip t))
      (reverse-snoc (123 ∷ inner ++ 125 ∷ []) newline
        ∙ ap (◌∷◌ newline) (reverse-snoc (123 ∷ inner) 125))
    ∙ ap reverse (sym (reverse-snoc (123 ∷ inner) 125))
    ∙ reverse-reverse (123 ∷ inner ++ 125 ∷ [])
