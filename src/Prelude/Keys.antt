-- ===== src/Prelude/Keys.antt =====
-- Types whose values are compared by `==`: the keys of dicts and the members of sets.
use Prim.Native.Nat.{ℕ}
use Prim.Native.String.{String}
use mathlib.Core.Path.{◌≡◌}
use mathlib.Core.Logic.{◌↔◌}
use mathlib.Core.Bool.{Bool, true, false, ◌||◌}
use mathlib.Core.List.{List, [], ◌∷◌}
use text.Mathlib.Text.{◌==◌ as str_eq}
use text.Mathlib.TextEquality.{eq_iff}
use bulk_http.Prelude.Tests.{nat_beq, nat_beq_iff}

-- A test that decides equality.
pub record HasEq {ℓ} (K : Type ℓ) : Type ℓ where
  pub same : K → K → Bool
  pub same_iff : (x y : K) → (same x y ≡ true) ↔ (x ≡ y)

instance abbrev pub string_keys : HasEq String
string_keys = record { same = str_eq; same_iff = eq_iff }

instance abbrev pub nat_keys : HasEq ℕ
nat_keys = record { same = nat_beq; same_iff = nat_beq_iff }

module _ {ℓ} {K : Type ℓ} ⦃e : HasEq K⦄ where
  infix 50 ◌==◌
  abbrev pub ◌==◌ : K → K → Bool
  ◌==◌ = e.same

  -- k in ks
  abbrev pub contains : List K → K → Bool
  contains [] k = false
  contains (j ∷ ks) k = j == k || contains ks k
