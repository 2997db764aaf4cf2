-- ===== src/Engine/Stream/Fresh.antt =====
-- The ids that `distributed` of src/bulk_http/engine/core.py gives to batches.
use bulk_http.Prelude.{
  ℕ, suc, ◌≤◌, ◌<◌, ◌≡◌, refl, ap, sym, ◌∙◌, subst, arith, true, false, Option, none, some, List,
  [], ◌∷◌, ◌++◌, contains, nat_keys, inl, inr, Bool-cases,
}
use bulk_http.Engine.Stream.{Stream, ends, breaks, item, distribute}

contains-snoc : (ns : List ℕ) (n m : ℕ) → n < m → contains (ns ++ n ∷ []) m ≡ contains ns m
contains-snoc [] n m h = ground arith
contains-snoc (k ∷ ns) n m h = ground (arith, contains-snoc ns n m h)

contains-head : (n : ℕ) (ns : List ℕ) → contains (n ∷ ns) n ≡ true
contains-head n ns = ground arith

contains-tail : (n m : ℕ) (ns : List ℕ) → contains ns m ≡ true → contains (n ∷ ns) m ≡ true
contains-tail n m ns h = ground (arith, h)

module _ {ℓ} {A : Type ℓ} where
  -- the ids of the batches in a stream
  unfoldable pub ids_of : Stream (Option (ℕ × A)) → List ℕ
  ids_of ends = []
  ids_of (breaks x) = []
  ids_of (item none s) = ids_of s
  ids_of (item (some (n, a)) s) = n ∷ ids_of s

  -- no id of the stream stands in the list, nor twice in the stream
  unfoldable pub AreNew : List ℕ → Stream (Option (ℕ × A)) → Type 0
  AreNew ns ends = Unit
  AreNew ns (breaks x) = Unit
  AreNew ns (item none s) = AreNew ns s
  AreNew ns (item (some (n, a)) s) = (contains ns n ≡ false) × AreNew (ns ++ n ∷ []) s

  -- the batch that is next, left out or kept
  distribute-old :
      (committed : List ℕ) (n : ℕ) (a : A) (s : Stream (Option A))
      → contains committed n ≡ true
      → distribute committed n (item (some a) s) ≡ distribute committed (suc n) s
  unfolding distribute
  distribute-old committed n a s h = ground (arith, h)

  distribute-kept :
      (committed : List ℕ) (n : ℕ) (a : A) (s : Stream (Option A))
      → contains committed n ≡ false
      → distribute committed n (item (some a) s)
        ≡ item (some (n, a)) (distribute committed (suc n) s)
  unfolding distribute
  distribute-kept committed n a s h = ground (arith, h)

  -- where the list agrees with the committed ids from `n` on
  pub distribute-AreNew :
      (committed ns : List ℕ) (n : ℕ) (s : Stream (Option A))
      → ((m : ℕ) → n ≤ m → contains ns m ≡ contains committed m)
      → AreNew ns (distribute committed n s)
  unfolding distribute AreNew
  distribute-AreNew committed ns n ends h = tt
  distribute-AreNew committed ns n (breaks x) h = tt
  distribute-AreNew committed ns n (item none s) h = distribute-AreNew committed ns n s h
  distribute-AreNew committed ns n (item (some a) s) h = elim (Bool-cases (contains committed n)) [
    | inl e ↦
        subst (AreNew ns) (sym (distribute-old committed n a s e))
          (distribute-AreNew committed ns (suc n) s (λ m le. h m (omega arith)))
    | inr e ↦ subst (AreNew ns) (sym (distribute-kept committed n a s e)) (
      h n (omega arith) ∙ e,
      distribute-AreNew committed (ns ++ n ∷ []) (suc n) s
          (λ m le. contains-snoc ns n m (omega arith) ∙ h m (omega arith)),
    )
  ]

  -- Numbering the same stream again, with everything committed that was yielded before, yields
  -- nothing more.
  pub distribute-again :
      (committed later : List ℕ) (n : ℕ) (s : Stream (Option A))
      → ((m : ℕ) → contains committed m ≡ true → contains later m ≡ true)
      → ((m : ℕ) → contains (ids_of (distribute committed n s)) m ≡ true → contains later m ≡ true)
      → ids_of (distribute later n s) ≡ []
  unfolding ids_of distribute
  distribute-again committed later n ends h k = refl
  distribute-again committed later n (breaks x) h k = refl
  distribute-again committed later n (item none s) h k = distribute-again committed later n s h k
  distribute-again committed later n (item (some a) s) h k =
      elim (Bool-cases (contains committed n)) [
        | inl e ↦
            ap ids_of (distribute-old later n a s (h n e))
            ∙ distribute-again committed later (suc n) s h (λ m i.
              k m (ap (λ t. contains (ids_of t) m) (distribute-old committed n a s e) ∙ i))
        | inr e ↦
            let kept =
              λ (m : ℕ). ap (λ t. contains (ids_of t) m) (distribute-kept committed n a s e) in
            ap ids_of (distribute-old later n a s (k n (kept n ∙ contains-head n _)))
            ∙ distribute-again committed later (suc n) s h
                (λ m i. k m (kept m ∙ contains-tail n m _ i))
      ]
