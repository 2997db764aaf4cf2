-- ===== src/Except.antt =====
-- Exceptions: the classes that the code raises, and the results of code that may raise one.
use bulk_http.Prelude.{◌≡◌, ◌⊎◌, inl, inr, refl, Bool, true, false, arith}

pub data Error : Type 0 where
  value_error index_error key_error zero_division assertion_error decode_error type_error
        attribute_error ban_suspected :
      Error

pub data Except {ℓ} (A : Type ℓ) : Type ℓ where
  ok : A → Except A
  raise : Error → Except A

infixl 5 ◌>>=◌ ◌>>◌
abbrev pub ◌>>=◌ {ℓ κ} : {A : Type ℓ} {B : Type κ} → Except A → (A → Except B) → Except B
raise x >>= next = raise x
ok a >>= next = next a

abbrev pub ◌>>◌ {ℓ} : {B : Type ℓ} → Except (Unit {0}) → Except B → Except B
ok u >> next = next
raise x >> next = raise x

-- if b: raise x
abbrev pub raise_if : Bool → Error → Except (Unit {0})
raise_if true x = raise x
raise_if false x = ok tt

-- What a ladder of guards returns, and exactly when.
pub raise_if-ok {ℓ} :
    {B : Type ℓ} (b : Bool) (x : Error) (k : Except B) (v : B)
    → (raise_if b x >> k) ≡ ok v
    → (b ≡ false) × (k ≡ ok v)
raise_if-ok true x k v h = ground arith
raise_if-ok false x k v h = (refl, h)

pub raise_if_passes {ℓ} :
    {B : Type ℓ} (b : Bool) (x : Error) (k : Except B) (v : B)
    → b ≡ false
    → k ≡ ok v
    → (raise_if b x >> k) ≡ ok v
raise_if_passes true x k v p h = ground arith
raise_if_passes false x k v p h = h

pub Except-cases {ℓ} :
    {A : Type ℓ} (m : Except A) → ((a : A) × (m ≡ ok a)) ⊎ ((x : Error) × (m ≡ raise x))
Except-cases (ok a) = inl (a, refl)
Except-cases (raise x) = inr (x, refl)
