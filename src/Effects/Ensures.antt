-- ===== src/Effects/Ensures.antt =====
-- What holds of the value that code returns, and of the error that it raises.
use bulk_http.Prelude.{◌≡◌, refl}
use bulk_http.Except.{Error, Except, ok, raise}
use bulk_http.Effects.{Stateful, ◌then◌}

unfoldable pub Ensures {ℓ κ ν} :
    {S : Type ℓ} {A : Type κ} → (A → Type ν) → (Error → Type ν) → Except A × S → Type ν
Ensures Q X (ok a, s) = Q a
Ensures Q X (raise x, s) = X x

module _ {ℓ κ μ ν} {S : Type ℓ} {A : Type κ} {B : Type μ} (R : A → Type ν) (Q : B → Type ν)
    (X : Error → Type ν) where
  Ensures-next :
      (out : Except A × S) (f : A → S → Except B × S)
      → Ensures R X out
      → ((a : A) (s₁ : S) → R a → Ensures Q X (f a s₁))
      → Ensures {S = S} Q X (elim out.0 [ ok a ↦ f a out.1 | raise x ↦ (raise x, out.1) ])
  unfolding Ensures
  Ensures-next (ok a, s) f h k = k a s h
  Ensures-next (raise x, s) f h k = h

  pub Ensures-then :
      (m : Stateful S A) (f : A → Stateful S B) (s : S)
      → Ensures R X (m s)
      → ((a : A) (s₁ : S) → R a → Ensures Q X (f a s₁))
      → Ensures Q X ((m then f) s)
  unfolding ◌then◌
  Ensures-then m f s h k = Ensures-next (m s) f h k

module _ {ℓ κ} {S : Type ℓ} {A : Type κ} where
  -- of code of which nothing is asked
  pub Ensures-any :
      (out : Except A × S) → Ensures {S = S} {A = A} (λ _. Unit {0}) (λ _. Unit {0}) out
  unfolding Ensures
  Ensures-any (ok a, s) = tt
  Ensures-any (raise x, s) = tt

  pub Ensures-map {ν} :
      (Q : A → Type ν) (R : A → Type ν) (X : Error → Type ν) (Y : Error → Type ν)
      (out : Except A × S)
      → ((a : A) → Q a → R a)
      → ((x : Error) → X x → out.0 ≡ raise x → Y x)
      → Ensures Q X out
      → Ensures R Y out
  unfolding Ensures
  Ensures-map Q R X Y (ok a, s) f g h = f a h
  Ensures-map Q R X Y (raise x, s) f g h = g x h refl

-- it holds whatever state comes with the value or the error
pub Ensures-state {ℓ κ ν} :
    {S S' : Type ℓ} {A : Type κ} (Q : A → Type ν) (X : Error → Type ν) (out : Except A × S) (s : S')
    → Ensures {S = S} Q X out
    → Ensures {S = S'} Q X (out.0, s)
unfolding Ensures
Ensures-state Q X (ok a, m) s h = h
Ensures-state Q X (raise x, m) s h = h
