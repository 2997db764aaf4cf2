-- ===== src/Sinks/CsvExport/Columns.antt =====
-- The columns that src/bulk_http/sinks/csv_export.py collects: each key where it first comes up.
use bulk_http.Prelude.{
  ◌≡◌, refl, ap, sym, ◌∙◌, arith, String, Bool, true, false, not, List, [], ◌∷◌, ◌++◌, ◌||◌, ◌&&◌,
  ◌==◌, contains, string_keys, keep_if, append-nil, append_assoc, inl, inr, Bool-cases,
  if◌then◌else◌,
}
use bulk_http.Sinks.CsvExport.{add_new}

-- the keys without those that stand further in front
unfoldable pub first_seen : List String → List String
first_seen [] = []
first_seen (key ∷ more) = key ∷ keep_if (λ k. not (key == k)) (first_seen more)

abbrev pub new_in : List String → String → Bool
new_in seen k = not (contains seen k)

abbrev pub differs : String → String → Bool
differs key k = not (key == k)

abbrev pub new_to : List String → List String → List String
new_to seen ks = keep_if (λ k. not (contains seen k)) ks

keep_if-keep_if :
    (p q r : String → Bool) (ks : List String)
    → ((k : String) → r k ≡ (q k && p k))
    → keep_if p (keep_if q ks) ≡ keep_if r ks
keep_if-keep_if p q r [] h = refl
keep_if-keep_if p q r (k ∷ ks) h = ground (arith, h k, keep_if-keep_if p q r ks h)

contains-snoc :
    (seen : List String) (key k : String)
    → contains (seen ++ key ∷ []) k ≡ (contains seen k || (key == k))
contains-snoc [] key k = ground arith
contains-snoc (j ∷ seen) key k = ground (arith, contains-snoc seen key k)

contains_same :
    (seen : List String) (key k : String)
    → contains seen key ≡ true
    → (key == k) ≡ true
    → contains seen k ≡ true
contains_same seen key k h e = ap (contains seen) (sym ((string_keys.same_iff key k).0 e)) ∙ h

new_to_old :
    (seen : List String) (key : String) (ks : List String)
    → contains seen key ≡ true
    → new_to seen (key ∷ ks) ≡ new_to seen ks
new_to_old seen key ks h = ground (arith, h)

new_to_new :
    (seen : List String) (key : String) (ks : List String)
    → contains seen key ≡ false
    → new_to seen (key ∷ ks) ≡ key ∷ new_to seen ks
new_to_new seen key ks h = ground (arith, h)

pub add_new-first_seen :
    (ks seen : List String) → add_new seen ks ≡ seen ++ new_to seen (first_seen ks)
unfolding add_new first_seen
add_new-first_seen [] seen = sym (append-nil seen)
add_new-first_seen (key ∷ ks) seen = elim (Bool-cases (contains seen key)) [
  | inl old ↦
      let apart =
        keep_if-keep_if (new_in seen) (differs key) (new_in seen) (first_seen ks)
          (λ k. ground (arith, contains_same seen key k old)) in
      ap (λ b. add_new (if b then seen else seen ++ key ∷ []) ks) old
      ∙ add_new-first_seen ks seen
      ∙ ap (λ xs. seen ++ xs) (sym (new_to_old seen key _ old ∙ apart))
  | inr new ↦
      let apart =
        keep_if-keep_if (new_in seen) (differs key) (new_in (seen ++ key ∷ [])) (first_seen ks)
          (λ k. ground (arith, contains-snoc seen key k)) in
      ap (λ b. add_new (if b then seen else seen ++ key ∷ []) ks) new
      ∙ add_new-first_seen ks (seen ++ key ∷ [])
      ∙ append_assoc seen (key ∷ []) _
      ∙ ap (λ xs. seen ++ xs) (ap (◌∷◌ key) (sym apart) ∙ sym (new_to_new seen key _ new))
]

-- what is collected from a list behind another
pub add_new-append :
    (ks seen ls : List String) → add_new (add_new seen ks) ls ≡ add_new seen (ks ++ ls)
unfolding add_new
add_new-append [] seen ls = refl
add_new-append (key ∷ ks) seen ls =
    add_new-append ks (if contains seen key then seen else seen ++ key ∷ []) ls

keep_if_all : (ks : List String) → new_to [] ks ≡ ks
keep_if_all [] = refl
keep_if_all (k ∷ ks) = ap (◌∷◌ k) (keep_if_all ks)

pub add_new-nil : (ks : List String) → add_new [] ks ≡ first_seen ks
add_new-nil ks = add_new-first_seen ks [] ∙ keep_if_all (first_seen ks)
