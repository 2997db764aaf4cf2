-- ===== src/Floats.antt =====
-- Python's float, as an interface: the operations that the program uses, and what it relies on of
-- them. IEEE arithmetic has these laws, rounding included, where no operand or result is NaN.
pub mod Millis
pub mod Order
pub mod Rounding
use bulk_http.Prelude.{ℕ, ◌≡◌, ◌⊎◌, Bool, true, false, not, if◌then◌else◌}

pub record Floats : Type 1 where
  pub Float : Type 0
  pub zero_f : Float
  pub one_f : Float
  pub of_nat : ℕ → Float
  -- a <= b
  pub le_f : Float → Float → Bool
  pub add_f : Float → Float → Float
  pub sub_f : Float → Float → Float
  pub mul_f : Float → Float → Float
  pub div_f : Float → Float → Float
  pub le_refl : (a : Float) → le_f a a ≡ true
  pub le_trans : (a b c : Float) → le_f a b ≡ true → le_f b c ≡ true → le_f a c ≡ true
  pub le_total : (a b : Float) → (le_f a b ≡ true) ⊎ (le_f b a ≡ true)
  -- a sum with something that is not negative does not fall
  pub le-add : (a d : Float) → le_f zero_f d ≡ true → le_f a (add_f a d) ≡ true
  pub add_mono : (a b d : Float) → le_f a b ≡ true → le_f (add_f a d) (add_f b d) ≡ true
  pub one_nonneg : le_f zero_f one_f ≡ true
  -- a quotient by something positive is not negative, where the dividend is not
  pub div_nonneg :
      (a b : Float) → le_f zero_f a ≡ true → le_f b zero_f ≡ false → le_f zero_f (div_f a b) ≡ true
  -- a difference is positive exactly where the order says so
  pub sub_pos : (a b : Float) → le_f (sub_f a b) zero_f ≡ le_f a b
  -- scaling by a factor of at most one does not enlarge
  pub mul_shrink :
      (a f : Float) → le_f zero_f a ≡ true → le_f f one_f ≡ true → le_f (mul_f a f) a ≡ true

module _ (F : Floats) where
  open F use {Float, le_f}

  -- a < b
  abbrev pub lt_f : Float → Float → Bool
  lt_f a b = not (le_f b a)

  -- max(a, b): the first unless the second is larger
  abbrev pub max_f : Float → Float → Float
  max_f a b = if lt_f a b then b else a

  -- min(a, b): the first unless the second is smaller
  abbrev pub min_f : Float → Float → Float
  min_f a b = if lt_f b a then b else a
