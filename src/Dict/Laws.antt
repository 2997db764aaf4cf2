-- ===== src/Dict/Laws.antt =====
-- Reads of dicts after writes, for every type of keys with an equality.
use bulk_http.Prelude.{
  ℕ, ◌+◌, ◌≡◌, refl, true, false, some, [], ◌∷◌, HasEq, ◌==◌, contains, ◌++◌, Bool-cases, arith,
  if◌then◌else◌,
}
use bulk_http.Dict.{Dict, get, get_or, put, tally, add, keys}

module _ {ℓ} {K : Type ℓ} ⦃e : HasEq K⦄ where
  pub eq_refl : (k : K) → (k == k) ≡ true
  eq_refl k = (e.same_iff k k).1 refl

module _ {ℓ κ} {K : Type ℓ} {V : Type κ} ⦃e : HasEq K⦄ where
  -- A read after a write sees the value that was written, and no other key changes.
  pub get-put :
      (k j : K) (v : V) (d : Dict K V) → get j (put k v d) ≡ (if k == j then some v else get j d)
  unfolding get put
  get-put k j v [] = refl
  get-put k j v ((i, w) ∷ d) =
      ground (arith, e.same_iff k j, e.same_iff i k, e.same_iff i j, get-put k j v d)

  pub get-put_self : (k : K) (v : V) (d : Dict K V) → get k (put k v d) ≡ some v
  get-put_self k v d = simp (get-put, eq_refl)

  pub get-put_ne : (k j : K) (v : V) (d : Dict K V) → (k == j) ≡ false → get j (put k v d) ≡ get j d
  get-put_ne k j v d h = rw (get-put, h)

-- A count goes up at its own key and nowhere else.
module _ {ℓ} {K : Type ℓ} ⦃e : HasEq K⦄ where
  pub tally-add :
      (k j : K) (n : ℕ) (c : Dict K ℕ) → tally j (add k n c) ≡ tally j c + (if k == j then n else 0)
  unfolding tally add
  tally-add k j n c = ground (arith, get-put k j (tally k c + n) c, e.same_iff k j)

module _ {ℓ κ} {K : Type ℓ} {V : Type κ} ⦃e : HasEq K⦄ where
  pub get-nil : (k : K) (v : V) → get {V = V} k [] ≡ some v → ⊥
  unfolding get
  get-nil k v h = cc

  pub get_or-put :
      (k j : K) (v default : V) (d : Dict K V)
      → get_or j default (put k v d) ≡ (if k == j then v else get_or j default d)
  get_or-put k j v default d = ground (arith, get-put k j v d)

  -- a new key goes to the end, and an old one keeps its place
  pub keys-put :
      (k : K) (v : V) (d : Dict K V)
      → keys (put k v d) ≡ (if contains (keys d) k then keys d else keys d ++ k ∷ [])
  unfolding put
  keys-put k v [] = refl
  keys-put k v ((j, w) ∷ d) = ground (arith, keys-put k v d, Bool-cases (j == k))
