-- ===== src/Floats/Millis.antt =====
-- Whole milliseconds as floats: a value at which the laws of the interface hold.
use bulk_http.Prelude.{ℕ, ◌+◌, ◌-◌, ◌*◌, ◌/◌, ◌≤◌, ◌≡◌, ◌⊎◌, true, false, refl, leb, arith}
use native.Mathlib.Nat.{mul-le-mul_left}
use bulk_http.Floats.{Floats}

pub le_refl_lem : (a : ℕ) → leb a a ≡ true
le_refl_lem a = ground arith

pub le_trans_lem : (a b c : ℕ) → leb a b ≡ true → leb b c ≡ true → leb a c ≡ true
le_trans_lem a b c h k = ground arith

pub le_total_lem : (a b : ℕ) → (leb a b ≡ true) ⊎ (leb b a ≡ true)
le_total_lem a b = ground arith

pub le-add_lem : (a d : ℕ) → leb 0 d ≡ true → leb a (a + d) ≡ true
le-add_lem a d h = ground arith

pub add_mono_lem : (a b d : ℕ) → leb a b ≡ true → leb (a + d) (b + d) ≡ true
add_mono_lem a b d h = ground arith

pub div_nonneg_lem : (a b : ℕ) → leb 0 a ≡ true → leb b 0 ≡ false → leb 0 (a * 1000 / b) ≡ true
div_nonneg_lem a b h k = ground arith

pub sub_pos_lem : (a b : ℕ) → leb (a - b) 0 ≡ leb a b
sub_pos_lem a b = ground arith

quotient : (n a : ℕ) → n ≤ a * 1000 → n / 1000 ≤ a
quotient n a h = omega arith

pub mul_shrink_lem : (a f : ℕ) → leb 0 a ≡ true → leb f 1000 ≡ true → leb (a * f / 1000) a ≡ true
mul_shrink_lem a f _ h =
    let small : f ≤ 1000 = ground arith in
    let product : a * f ≤ a * 1000 = mul-le-mul_left a small in
    ground (arith, quotient (a * f) a product)

abbrev pub millis : Floats
millis = record {
  Float = ℕ;
  zero_f = 0;
  one_f = 1000;
  of_nat = λ n. n * 1000;
  le_f = leb;
  add_f = ◌+◌;
  sub_f = ◌-◌;
  mul_f = λ a b. a * b / 1000;
  div_f = λ a b. a * 1000 / b;
  le_refl = le_refl_lem;
  le_trans = le_trans_lem;
  le_total = le_total_lem;
  le-add = le-add_lem;
  add_mono = add_mono_lem;
  one_nonneg = refl;
  div_nonneg = div_nonneg_lem;
  sub_pos = sub_pos_lem;
  mul_shrink = mul_shrink_lem;
}
