-- ===== src/Effects.antt =====
-- Code that changes a state and may raise: what it changed before it raises stays changed.
pub mod Ensures
use bulk_http.Prelude.{◌≡◌, ◌⊎◌, inl, inr, refl}
use bulk_http.Except.{Error, Except, ok, raise}

abbrev pub Stateful {ℓ κ} : Type ℓ → Type κ → Type (ℓ ⊔ κ)
Stateful S A = S → Except A × S

infixl 5 ◌then◌
unfoldable pub ◌then◌ {ℓ κ μ} :
    {S : Type ℓ} {A : Type κ} {B : Type μ} → Stateful S A → (A → Stateful S B) → Stateful S B
◌then◌ m f s = let (r, s') = m s in elim r [ ok a ↦ f a s' | raise x ↦ (raise x, s') ]

unfoldable pub lift {ℓ κ} : {S : Type ℓ} {A : Type κ} → Except A → Stateful S A
lift r s = (r, s)

pub Stateful-cases {ℓ κ} :
    {S : Type ℓ} {A : Type κ} (out : Except A × S)
    → ((a : A) × (s : S) × (out ≡ (ok a, s))) ⊎ ((x : Error) × (s : S) × (out ≡ (raise x, s)))
Stateful-cases (ok a, s) = inl (a, s, refl)
Stateful-cases (raise x, s) = inr (x, s, refl)
