-- ===== src/Proxies/Backconnect/Sticky.antt =====
-- The sessions of src/bulk_http/proxies/backconnect.py over many calls.
use bulk_http.Prelude.{
  ◌≡◌, refl, ap, sym, subst, ◌∙◌, arith, String, true, false, Option, some, List, [], ◌∷◌, ◌==◌,
  string_keys, inl, inr, Bool-cases, Option-cases,
}
use bulk_http.Except.{Error, Except, ok, raise, Except-cases}
use bulk_http.Effects.{Stateful}
use bulk_http.Effects.Ensures.{Ensures, Ensures-state}
use bulk_http.Dict.{get}
use bulk_http.Dict.Laws.{get-put, eq_refl}
use bulk_http.Texts.{is_in}
use bulk_http.Proxies.Backconnect.{
  Gateway, session_placeholder, filled, new_id, session_of, sticky_for, rotating, proxy_for,
}

module _ {G : Type 0} (id_generator : Stateful G String) where
  -- the gateway after calls with these keys, whether they raise or not
  unfoldable pub after_calls : List (Option String) → Gateway G → Gateway G
  after_calls [] b = b
  after_calls (key ∷ keys) b = after_calls keys (proxy_for id_generator key b).1

  -- the gateway holds this id for a key
  pub IsPinned : String → String → Gateway G → Type 0
  IsPinned key id b = (get key b.sticky ≡ some id) × ((id == "") ≡ false)

  -- an id that is held is used
  session_of-pinned :
      (key id : String) (b : Gateway G)
      → IsPinned key id b
      → session_of id_generator key b ≡ (ok id, b)
  unfolding session_of IsPinned
  session_of-pinned key id b h = rw (session_of, h.0, h.1) refl

  new_id-sticky : (b : Gateway G) → (new_id id_generator b).1.sticky ≡ b.sticky
  unfolding new_id
  new_id-sticky b = refl

  session_of-sticky :
      (key : String) (b : Gateway G) → (session_of id_generator key b).1.sticky ≡ b.sticky
  unfolding session_of
  session_of-sticky key b = ground (arith, new_id-sticky b)

  sticky_for-IsPinned :
      (key id k : String) (b : Gateway G)
      → IsPinned key id b
      → IsPinned key id (sticky_for id_generator k b).1
  unfolding IsPinned sticky_for
  sticky_for-IsPinned key id k b h = elim (Bool-cases (k == key)) [
    | inl here ↦
        let same = (string_keys.same_iff k key).0 here in
        let step = ap (λ j. session_of id_generator j b) same ∙ session_of-pinned key id b h in
        rw (sticky_for, step) (rw (get-put, here) refl, h.1)
    | inr other ↦ elim (Except-cases (session_of id_generator k b).0) [
      | inl (i, e) ↦ rw (sticky_for, e) (rw (get-put, other, session_of-sticky) h.0, h.1)
      | inr (x, e) ↦ rw (sticky_for, e) (rw (session_of-sticky) h.0, h.1)
    ]
  ]

  rotating-sticky : (b : Gateway G) → (rotating id_generator b).1.sticky ≡ b.sticky
  unfolding rotating new_id
  rotating-sticky b = ground arith

  -- no later call takes an id from its key
  proxy_for-IsPinned :
      (key id : String) (k : Option String) (b : Gateway G)
      → IsPinned key id b
      → IsPinned key id (proxy_for id_generator k b).1
  unfolding proxy_for IsPinned
  proxy_for-IsPinned key id k b h = elim (Bool-cases (is_in session_placeholder b.template)) [
    | inr bare ↦ rw (proxy_for, bare) h
    | inl fills ↦ elim (Option-cases k) [
      | inl e ↦ rw (proxy_for, fills, e) (rw (IsPinned, rotating-sticky) (h))
      | inr (j, e) ↦ rw (proxy_for, fills, e) (sticky_for-IsPinned key id j b h)
    ]
  ]

  after_calls-IsPinned :
      (key id : String) (keys : List (Option String)) (b : Gateway G)
      → IsPinned key id b
      → IsPinned key id (after_calls keys b)
  unfolding after_calls
  after_calls-IsPinned key id [] b h = h
  after_calls-IsPinned key id (k ∷ keys) b h =
      after_calls-IsPinned key id keys _ (proxy_for-IsPinned key id k b h)

  new_id-template : (b : Gateway G) → (new_id id_generator b).1.template ≡ b.template
  unfolding new_id
  new_id-template b = refl

  proxy_for-template :
      (k : Option String) (b : Gateway G) → (proxy_for id_generator k b).1.template ≡ b.template
  unfolding proxy_for sticky_for rotating session_of
  proxy_for-template k b = ground (arith, new_id-template b)

  after_calls-template :
      (keys : List (Option String)) (b : Gateway G) → (after_calls keys b).template ≡ b.template
  unfolding after_calls
  after_calls-template [] b = refl
  after_calls-template (k ∷ keys) b = after_calls-template keys _ ∙ proxy_for-template k b

  -- an id is never the empty text
  unfoldable pub NeverEmpty : {S : Type 0} → Except String × S → Type 0
  NeverEmpty = Ensures (λ i. (i == "") ≡ false) (λ x. Unit {0})

  new_id-NeverEmpty :
      (b : Gateway G) → NeverEmpty (id_generator b.generator) → NeverEmpty (new_id id_generator b)
  unfolding new_id NeverEmpty
  new_id-NeverEmpty b h = Ensures-state _ _ (id_generator b.generator) _ h

  session_of-NeverEmpty :
      (key : String) (b : Gateway G)
      → NeverEmpty (id_generator b.generator)
      → NeverEmpty (session_of id_generator key b)
  unfolding NeverEmpty session_of Ensures
  session_of-NeverEmpty key b h = elim (Option-cases (get key b.sticky)) [
    | inl e ↦ rw (session_of, e) (new_id-NeverEmpty b h)
    | inr (i, e) ↦ elim (Bool-cases (i == "")) [
      | inl empty ↦ rw (session_of, e, empty) (new_id-NeverEmpty b h)
      | inr full ↦ rw (session_of, e, full) full
    ]
  ]

  NeverEmpty-ok :
      {S : Type 0} (out : Except String × S) (i : String)
      → NeverEmpty out
      → out.0 ≡ ok i
      → (i == "") ≡ false
  unfolding NeverEmpty Ensures
  NeverEmpty-ok (ok j, s) i h e = ground (arith, e, h)
  NeverEmpty-ok (raise x, s) i h e = ground (arith, e)

  ok_injective : {i j : String} → ok i ≡ ok j → i ≡ j
  ok_injective e = ground (arith, e)

  ok_is_not_raise : {i : String} {x : Error} → raise x ≡ ok i → ⊥
  ok_is_not_raise e = ground (arith, e)

  sticky_for-pins :
      (key url : String) (b : Gateway G)
      → NeverEmpty (id_generator b.generator)
      → (sticky_for id_generator key b).0 ≡ ok url
      → (id : String) × (filled b.template id ≡ url)
        × IsPinned key id (sticky_for id_generator key b).1
  unfolding sticky_for IsPinned
  sticky_for-pins key url b never h = elim (Except-cases (session_of id_generator key b).0) [
    | inl (i, e) ↦ (
      i,
      ok_injective (rw (sticky_for, e) at h),
      rw (sticky_for, e)
          (rw (get-put, eq_refl) refl, NeverEmpty-ok _ i (session_of-NeverEmpty key b never) e),
    )
    | inr (x, e) ↦ absurd (ok_is_not_raise (rw (sticky_for, e) at h))
  ]

  sticky_for_again :
      (key id : String) (b : Gateway G)
      → IsPinned key id b
      → (sticky_for id_generator key b).0 ≡ ok (filled b.template id)
  unfolding sticky_for
  sticky_for_again key id b h = rw (sticky_for, session_of-pinned key id b h) refl

  proxy_for_bare :
      (k : Option String) (b : Gateway G)
      → is_in session_placeholder b.template ≡ false
      → (proxy_for id_generator k b).0 ≡ ok b.template
  unfolding proxy_for
  proxy_for_bare k b h = rw (proxy_for, h) refl

  proxy_for_keyed :
      (key : String) (b : Gateway G)
      → is_in session_placeholder b.template ≡ true
      → proxy_for id_generator (some key) b ≡ sticky_for id_generator key b
  unfolding proxy_for
  proxy_for_keyed key b h = rw (proxy_for, h) refl

  -- A key keeps its URL: when a call with a key returns a URL, and the generator's next id is not
  -- the empty text, then after any other calls, with keys or without, a call with the key returns
  -- the URL again.
  pub proxy_for-again :
      (key url : String) (keys : List (Option String)) (b : Gateway G)
      → NeverEmpty (id_generator b.generator)
      → (proxy_for id_generator (some key) b).0 ≡ ok url
      → (proxy_for id_generator
          (some key)
          (after_calls keys (proxy_for id_generator (some key) b).1)).0
        ≡ ok url
  proxy_for-again key url keys b never h =
      let b₁ = (proxy_for id_generator (some key) b).1 in
      let b₂ = after_calls keys b₁ in
      let same : b₂.template ≡ b.template =
        after_calls-template keys b₁ ∙ proxy_for-template (some key) b in
      elim (Bool-cases (is_in session_placeholder b.template)) [
        | inl fills ↦
            let (id, made, pinned) =
              sticky_for-pins key url b never
                (ap (λ o. o.0) (sym (proxy_for_keyed key b fills)) ∙ h) in
            let kept =
              after_calls-IsPinned key id keys b₁
                (subst (λ o. IsPinned key id o.1) (sym (proxy_for_keyed key b fills)) pinned) in
            ap (λ o. o.0) (proxy_for_keyed key b₂ (ap (is_in session_placeholder) same ∙ fills))
            ∙ sticky_for_again key id b₂ kept
            ∙ ap (λ t. ok (filled t id)) same
            ∙ ap ok made
        | inr bare ↦
            proxy_for_bare (some key) b₂ (ap (is_in session_placeholder) same ∙ bare)
            ∙ ap ok same
            ∙ sym (proxy_for_bare (some key) b bare)
            ∙ h
      ]
