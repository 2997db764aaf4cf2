-- ===== src/Value.antt =====
-- Python values of unknown type (`Any`): metadata, decoded JSON and the fields of file sources.
use bulk_http.Prelude.{ℕ, String, Bool, List}
use bulk_http.Prelude.Int.{ℤ}
use bulk_http.Floats.{Floats}
use bulk_http.Dict.{Dict}

mutual
  pub data Value (F : Floats) : Type 0 where
    null : Value F
    bool : Bool → Value F
    int : ℤ → Value F
    float : F.Float → Value F
    str : String → Value F
    bytes : List ℕ → Value F
    list : Items F → Value F
    dict : Fields F → Value F

  pub data Items (F : Floats) : Type 0 where
    nil : Items F
    cons : Value F → Items F → Items F

  pub data Fields (F : Floats) : Type 0 where
    end : Fields F
    field : String → Value F → Fields F → Fields F

-- dict[str, Any]
abbrev pub Meta : Floats → Type 0
Meta F = Dict String (Value F)
