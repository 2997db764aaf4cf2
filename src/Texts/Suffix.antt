-- ===== src/Texts/Suffix.antt =====
-- `endswith` and the suffixes of a text.
use Prim.Native.String.{String, [], ◌∷◌, ◌++◌}
use text.Mathlib.TextLemmas.{nil-append, cons-append}
use bulk_http.Prelude.{
  Bool, true, false, ◌≡◌, inl, inr, refl, ap, sym, ◌∙◌, arith, Bool-cases, ◌||◌, ◌==◌, string_keys,
}
use bulk_http.Dict.Laws.{eq_refl}
use bulk_http.Texts.{ends_with}

pub ends_with_suffix : (s t : String) → ends_with s t ≡ true → (p : String) × (s ≡ p ++ t)
unfolding ends_with
ends_with_suffix [] t h = ([], (string_keys.same_iff [] t).0 h ∙ sym (nil-append t))
ends_with_suffix (c ∷ s) t h = elim (Bool-cases ((c ∷ s) == t)) [
  | inl e ↦ ([], (string_keys.same_iff (c ∷ s) t).0 e ∙ sym (nil-append t))
  | inr e ↦
      let (p, at) = ends_with_suffix s t (ground arith) in
      (c ∷ p, ap (λ w. c ∷ w) at ∙ sym (cons-append c p t))
]

ends_with_self : (t : String) → ends_with t t ≡ true
unfolding ends_with
ends_with_self [] = refl
ends_with_self (c ∷ t) = rw (eq_refl (c ∷ t))

pub or_right : (a : Bool) {b : Bool} → b ≡ true → (a || b) ≡ true
or_right true h = refl
or_right false h = h

pub suffix_ends_with : (p t : String) → ends_with (p ++ t) t ≡ true
unfolding ends_with
suffix_ends_with [] t = rw (nil-append t, ends_with_self t)
suffix_ends_with (c ∷ p) t =
    rw (cons-append c p t) (or_right ((c ∷ (p ++ t)) == t) (suffix_ends_with p t))
