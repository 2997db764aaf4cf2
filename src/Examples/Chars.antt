-- ===== src/Examples/Chars.antt =====
-- Texts as numbers above 125, one for each character, and back.
use Prim.Native.Nat.{compare, Ordering}
use Prim.Native.Char.{Char, char, code, IsLt}
use Prim.Native.String.{String, [] as empty, ◌∷◌ as ◌then◌}
use bulk_http.Prelude.{
  ℕ, ◌+◌, ◌-◌, ◌≡◌, refl, ap, Option, none, some, [], ◌∷◌, map_option, if◌then◌else◌, arith,
}
use bulk_http.Bytes.{Bytes}

abbrev Both : Ordering → Ordering → Type 0
Both Ordering.lt o = IsLt o
Both Ordering.eq o = ⊥
Both Ordering.gt o = ⊥

-- what `IsScalar` is of the three comparisons
abbrev Scalar : Ordering → Ordering → Ordering → Type 0
Scalar Ordering.lt o p = Unit
Scalar Ordering.eq o p = Both o p
Scalar Ordering.gt o p = Both o p

decide_lt : (o : Ordering) → Option (IsLt o)
decide_lt Ordering.lt = some tt
decide_lt Ordering.eq = none
decide_lt Ordering.gt = none

decide_both : (o p : Ordering) → Option (Both o p)
unfolding decide_lt
decide_both Ordering.lt p = decide_lt p
decide_both Ordering.eq p = none
decide_both Ordering.gt p = none

decide_scalar : (o p q : Ordering) → Option (Scalar o p q)
unfolding decide_both
decide_scalar Ordering.lt p q = some tt
decide_scalar Ordering.eq p q = decide_both p q
decide_scalar Ordering.gt p q = decide_both p q

lt_decided : (o : Ordering) (x : IsLt o) → decide_lt o ≡ some x
unfolding decide_lt
lt_decided Ordering.lt x = refl
lt_decided Ordering.eq x = absurd x
lt_decided Ordering.gt x = absurd x

both_decided : (o p : Ordering) (x : Both o p) → decide_both o p ≡ some x
unfolding decide_both
both_decided Ordering.lt p x = lt_decided p x
both_decided Ordering.eq p x = absurd x
both_decided Ordering.gt p x = absurd x

scalar_decided : (o p q : Ordering) (x : Scalar o p q) → decide_scalar o p q ≡ some x
unfolding decide_scalar
scalar_decided Ordering.lt p q x = refl
scalar_decided Ordering.eq p q x = both_decided p q x
scalar_decided Ordering.gt p q x = both_decided p q x

char_of : ℕ → Option Char
unfolding decide_scalar
char_of n =
    map_option (char n) (decide_scalar (compare n 55296) (compare 57343 n) (compare n 1114112))

char_of-code : (c : Char) → char_of (code c) ≡ some c
unfolding char_of
char_of-code (char n x) =
    ap (map_option (char n))
      (scalar_decided (compare n 55296) (compare 57343 n) (compare n 1114112) x)

unfoldable pub codes : String → Bytes
codes empty = []
codes (c then s) = (code c + 126) ∷ codes s

onto : Option Char → Option String → Option String
onto none s = none
onto (some c) none = none
onto (some c) (some s) = some (c then s)

unfoldable pub string_of : Bytes → Option String
unfolding char_of onto
string_of [] = some empty
string_of (n ∷ ns) = onto (char_of (n - 126)) (string_of ns)

pub string_of-codes : (s : String) → string_of (codes s) ≡ some s
unfolding string_of codes onto
string_of-codes empty = refl
string_of-codes (c then s) =
    let back : code c + 126 - 126 ≡ code c = omega arith in
    rw (back, char_of-code c, string_of-codes s)
