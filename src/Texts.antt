-- ===== src/Texts.antt =====
-- What the code uses of Python's str: the case folding and the splitting of the standard library,
-- as parameters, and the tests that are read off the characters.
pub mod Suffix
use Prim.Native.String.{String, [], ◌∷◌, ◌++◌, find, slice, len}
use bulk_http.Prelude.{Bool, List, ◌||◌, ◌==◌, string_keys, leb}

pub record Texts : Type 0 where
  pub lower : String → String
  -- s.strip()
  pub strip_text : String → String
  -- s.split(",")
  pub split_commas : String → List String

-- `t in s`
abbrev pub is_in : String → String → Bool
is_in t s = leb (find s t) (len s)

-- s.split(";", 1)[0]
abbrev pub before_semicolon : String → String
before_semicolon s = slice s 0 (find s ";")

-- s.endswith(t)
unfoldable pub ends_with : String → String → Bool
ends_with [] t = [] == t
ends_with (c ∷ s) t = (c ∷ s) == t || ends_with s t
