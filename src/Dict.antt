-- ===== src/Dict.antt =====
-- Python's dict: an association list in insertion order. Writing to a key that is present keeps
-- its place, and a new key goes to the end.
pub mod Laws
use bulk_http.Prelude.{ℕ, ◌+◌, Option, none, some, List, [], ◌∷◌, map, HasEq, ◌==◌, if◌then◌else◌}

abbrev pub Dict {ℓ κ} : Type ℓ → Type κ → Type (ℓ ⊔ κ)
Dict K V = List (K × V)

-- d.keys()
abbrev pub keys {ℓ κ} : {K : Type ℓ} {V : Type κ} → Dict K V → List K
keys = map (λ e. e.0)

module _ {ℓ κ} {K : Type ℓ} {V : Type κ} ⦃e : HasEq K⦄ where
  -- d.get(k)
  unfoldable pub get : K → Dict K V → Option V
  get k [] = none
  get k ((j, v) ∷ d) = if j == k then some v else get k d

  -- d.get(k, default)
  abbrev pub get_or : K → V → Dict K V → V
  get_or k default d = elim (get k d) [ none ↦ default | some v ↦ v ]

  -- d[k] = v
  unfoldable pub put : K → V → Dict K V → Dict K V
  put k v [] = (k, v) ∷ []
  put k v ((j, w) ∷ d) = if j == k then (j, v) ∷ d else (j, w) ∷ put k v d

  -- d.update(pairs)
  unfoldable pub update : Dict K V → Dict K V → Dict K V
  update d [] = d
  update d ((k, v) ∷ rest) = update (put k v d) rest

-- A Counter: a missing key counts as 0.
module _ {ℓ} {K : Type ℓ} ⦃e : HasEq K⦄ where
  -- c[k]
  unfoldable pub tally : K → Dict K ℕ → ℕ
  tally k c = get_or k 0 c

  -- c[k] += n
  unfoldable pub add : K → ℕ → Dict K ℕ → Dict K ℕ
  add k n c = put k (tally k c + n) c
