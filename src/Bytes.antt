-- ===== src/Bytes.antt =====
-- The standard library's bytes: stripping, and the lines of a file opened in binary mode.
pub mod Lines
use bulk_http.Prelude.{
  ℕ, Bool, true, false, List, [], ◌∷◌, ◌++◌, ◌||◌, ◌&&◌, nat_beq, leb, if◌then◌else◌,
}
use mathlib.Core.List.{reverse}

abbrev pub Bytes : Type 0
Bytes = List ℕ

abbrev pub newline : ℕ
newline = 10

-- ASCII whitespace: tab, newline, vertical tab, form feed, carriage return and space
abbrev pub is_space : ℕ → Bool
is_space c = (leb 9 c && leb c 13) || nat_beq c 32

unfoldable pub lstrip : Bytes → Bytes
lstrip [] = []
lstrip (c ∷ cs) = if is_space c then lstrip cs else c ∷ cs

-- raw.strip()
unfoldable pub strip : Bytes → Bytes
unfolding lstrip
strip cs = reverse (lstrip (reverse (lstrip cs)))

-- a byte in front of the first line
abbrev pub onto_first : ℕ → List Bytes → List Bytes
onto_first c [] = (c ∷ []) ∷ []
onto_first c (l ∷ ls) = (c ∷ l) ∷ ls

-- for raw in handle: each line with its newline, and a last one without
unfoldable pub lines_of : Bytes → List Bytes
lines_of [] = []
lines_of (c ∷ cs) =
    let rest = lines_of cs in if nat_beq c newline then (newline ∷ []) ∷ rest else onto_first c rest
