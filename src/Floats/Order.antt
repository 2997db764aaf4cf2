-- ===== src/Floats/Order.antt =====
-- Facts of the order on floats, from its laws.
use bulk_http.Prelude.{◌≡◌, true, false, ◌⊎◌, inl, inr, arith, Bool-cases}
use bulk_http.Floats.{Floats, max_f, min_f}

module _ (F : Floats) where
  -- what is not at most is at least
  pub le_of_not : (a b : F.Float) → F.le_f a b ≡ false → F.le_f b a ≡ true
  le_of_not a b h = ground (arith, F.le_total a b)

  pub le_max_left : (a b : F.Float) → F.le_f a (max_f F a b) ≡ true
  le_max_left a b = ground (arith, F.le_refl a, F.le_total a b)

  pub le_max_right : (a b : F.Float) → F.le_f b (max_f F a b) ≡ true
  le_max_right a b = ground (arith, F.le_refl b, F.le_total a b)

  pub max_le :
      (a b c : F.Float) → F.le_f a c ≡ true → F.le_f b c ≡ true → F.le_f (max_f F a b) c ≡ true
  max_le a b c h k = ground arith

  pub min_le_left : (a b : F.Float) → F.le_f (min_f F a b) a ≡ true
  min_le_left a b = ground (arith, F.le_refl a, F.le_total a b)

  pub min_le_right : (a b : F.Float) → F.le_f (min_f F a b) b ≡ true
  min_le_right a b = ground (arith, F.le_refl b, F.le_total a b)

  pub le_min :
      (a b c : F.Float) → F.le_f c a ≡ true → F.le_f c b ≡ true → F.le_f c (min_f F a b) ≡ true
  le_min a b c h k = ground arith

  pub max_either : (a b : F.Float) → (max_f F a b ≡ a) ⊎ (max_f F a b ≡ b)
  max_either a b = elim (Bool-cases (F.le_f b a)) [ inl h ↦ inl (rw h) | inr h ↦ inr (rw h) ]
