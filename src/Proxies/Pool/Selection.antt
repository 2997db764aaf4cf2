-- ===== src/Proxies/Pool/Selection.antt =====
-- The order in which `select` of src/bulk_http/proxies/pool.py looks at the proxies.
use bulk_http.Prelude.{
  ℕ, zero, suc, ◌+◌, ◌%◌, ◌<◌, ◌≡◌, refl, ap, sym, ◌∙◌, subst, ◌⊎◌, inl, inr, String, Bool, true,
  false, List, [], ◌∷◌, length, get_elem?, Option, none, some, string_keys, arith, Bool-cases,
  Option-cases, is_some,
}
use native.Mathlib.Nat.{mod-add-mod, mod-lt, mod-eq_of_lt, add-mod_right}
use bulk_http.Except.{Except, ok}
use bulk_http.Floats.{Floats}
use bulk_http.Dict.{get}
use bulk_http.Proxies.Health.{is_available}
use bulk_http.Proxies.Pool.{ProxyPool, look, select_from, select}

module _ {F : Floats} where
  -- The cursor is a position of the list, and every proxy has its health.
  pub record IsValid (p : ProxyPool F) : Type 0 where
    pub in_range : (0 < length p.proxies) → p.cursor < length p.proxies
    pub known :
        (i : ℕ) (proxy : String)
        → get_elem? p.proxies i ≡ some proxy
        → is_some (get proxy p.health) ≡ true

  -- The proxy `i` places after the cursor.
  abbrev pub after_cursor : ProxyPool F → ℕ → Option String
  after_cursor p i = get_elem? p.proxies ((p.cursor + i) % length p.proxies)

  -- Whether the pool would hand a proxy out.
  unfoldable pub free : ProxyPool F → F.Float → String → Bool
  free p now proxy = elim (get proxy p.health) [ none ↦ false | some h ↦ is_available h now ]

none_or_some {ℓ} : {A : Type ℓ} (xs : List A) → (length xs ≡ 0) ⊎ (0 < length xs)
none_or_some xs = omega arith

get_elem?-some {ℓ} :
    {A : Type ℓ} (xs : List A) (i : ℕ) → i < length xs → (a : A) × (get_elem? xs i ≡ some a)
get_elem?-some [] i h = elim h [ ]
get_elem?-some (x ∷ xs) zero h = (x, refl)
get_elem?-some (x ∷ xs) (suc i) h = get_elem?-some xs i (omega arith)

module _ {F : Floats} where
  look_lem :
      (p : ProxyPool F) (now : F.Float)
      → IsValid p
      → 0 < length p.proxies
      → (proxy : String) × (get_elem? p.proxies p.cursor ≡ some proxy)
        × (look p now
            ≡ ok (proxy, free p now proxy, record p { cursor = (p.cursor + 1) % length p.proxies }))
  unfolding look free
  look_lem p now v pos =
      let (proxy, at) = get_elem?-some p.proxies p.cursor (v.in_range pos) in
      elim (Option-cases (get proxy p.health)) [
        | inl missing ↦ absurd (ground (arith, missing, v.known p.cursor proxy at))
        | inr (h, found) ↦ (proxy, at, ground (arith, at, found))
      ]

shift : (c i n : ℕ) → ((c + 1) % n + i) % n ≡ (c + suc i) % n
shift c i n = mod-add-mod (c + 1) n i ∙ ap (λ (t : ℕ). t % n) (omega arith)

module _ {F : Floats} where
  -- The place is empty, or the proxy there is not available.
  abbrev pub Busy : ProxyPool F → F.Float → ℕ → Type 0
  Busy p now i = (proxy : String) → after_cursor p i ≡ some proxy → free p now proxy ≡ false

  abbrev pub moved : ProxyPool F → ℕ → ProxyPool F
  moved p k = record p { cursor = (p.cursor + k) % length p.proxies }

  -- What a look at `n` places may return, where the pool is `end` after a look in vain.
  abbrev pub Selected :
      ProxyPool F → F.Float → ℕ → ProxyPool F → Except (Option String × ProxyPool F) → Type 0
  Selected p now n end out =
      ((k : ℕ) × (proxy : String) × (k < n)
        × (after_cursor p k ≡ some proxy)
        × (free p now proxy ≡ true)
        × ((i : ℕ) → i < k → Busy p now i)
        × (out ≡ ok (some proxy, moved p (suc k))))
      ⊎ (((i : ℕ) → i < n → Busy p now i) × (out ≡ ok (none, end)))

  pub moved-IsValid : (p : ProxyPool F) (k : ℕ) → IsValid p → IsValid (moved p k)
  moved-IsValid p k v = record { in_range = λ h. mod-lt _ h; known = v.known }

  first_place :
      (p : ProxyPool F) → p.cursor < length p.proxies → (p.cursor + 0) % length p.proxies ≡ p.cursor
  first_place p h = ap (λ (t : ℕ). t % length p.proxies) (omega arith) ∙ mod-eq_of_lt h

  -- at the cursor itself
  here-Busy :
      (p : ProxyPool F) (now : F.Float) (proxy : String)
      → p.cursor < length p.proxies
      → get_elem? p.proxies p.cursor ≡ some proxy
      → free p now proxy ≡ false
      → Busy p now 0
  here-Busy p now proxy v at busy q e =
      ground (arith, at, busy, e, ap (get_elem? p.proxies) (first_place p v))

  place-moved : (p : ProxyPool F) (i : ℕ) → after_cursor (moved p 1) i ≡ after_cursor p (suc i)
  place-moved p i = ap (get_elem? p.proxies) (shift p.cursor i (length p.proxies))

  moved-moved : (p : ProxyPool F) (k : ℕ) → moved (moved p 1) k ≡ moved p (suc k)
  moved-moved p k = ap (λ c. record p { cursor = c }) (shift p.cursor k (length p.proxies))

  -- what is busy after one step is busy one place further on
  Busy-suc :
      (p : ProxyPool F) (now : F.Float) (n : ℕ)
      → Busy p now 0
      → ((i : ℕ) → i < n → Busy (moved p 1) now i)
      → (i : ℕ) → i < suc n
      → Busy p now i
  unfolding free
  Busy-suc p now n first rest zero h = first
  Busy-suc p now n first rest (suc i) h = λ q e. rest i (omega arith) q (place-moved p i ∙ e)

  Selected-suc :
      (p : ProxyPool F) (now : F.Float) (n : ℕ) (out : Except (Option String × ProxyPool F))
      → Busy p now 0
      → Selected (moved p 1) now n (moved (moved p 1) n) out
      → Selected p now (suc n) (moved p (suc n)) out
  unfolding free
  Selected-suc p now n out first (inl (k, proxy, h, at, fr, before, e)) = inl (
    suc k,
    proxy,
    omega arith,
    sym (place-moved p k) ∙ at,
    fr,
    Busy-suc p now k first before,
    e ∙ ap (λ q. ok (some proxy, q)) (moved-moved p (suc k)),
  )
  Selected-suc p now n out first (inr (all, e)) =
      inr (Busy-suc p now n first all, e ∙ ap (λ q. ok (none, q)) (moved-moved p n))

  skips :
      (n : ℕ) (p : ProxyPool F) (now : F.Float) (proxy : String)
      → look p now ≡ ok (proxy, free p now proxy, moved p 1)
      → free p now proxy ≡ false
      → select_from n (moved p 1) now ≡ select_from (suc n) p now
  unfolding select_from
  skips n p now proxy looks busy = ground (arith, looks, busy)

  select_from-Selected :
      (n : ℕ) (p : ProxyPool F) (now : F.Float)
      → IsValid p
      → 0 < length p.proxies
      → Selected p now n (moved p n) (select_from n p now)
  unfolding select_from
  select_from-Selected zero p now v pos =
      inr (λ i h. elim h [ ], ground (arith, first_place p (v.in_range pos)))
  select_from-Selected (suc n) p now v pos =
      let (proxy, at, looks) = look_lem p now v pos in
      elim (Bool-cases (free p now proxy)) [
        | inl yes_free ↦ inl (
          0,
          proxy,
          omega arith,
          ap (get_elem? p.proxies) (first_place p (v.in_range pos)) ∙ at,
          yes_free,
          λ i h. elim h [ ],
          ground (arith, looks, yes_free),
        )
        | inr busy ↦ Selected-suc p now n _ (here-Busy p now proxy (v.in_range pos) at busy) (
            subst (Selected (moved p 1) now n (moved (moved p 1) n))
              (skips n p now proxy looks busy)
              (select_from-Selected n (moved p 1) now (moved-IsValid p 1 v) pos))
      ]

  whole_turn : (p : ProxyPool F) → IsValid p → 0 < length p.proxies → moved p (length p.proxies) ≡ p
  whole_turn p v pos =
      ap (λ c. record p { cursor = c })
        (add-mod_right p.cursor (length p.proxies) ∙ mod-eq_of_lt (v.in_range pos))

  empty_pool :
      (p : ProxyPool F) (now : F.Float)
      → length p.proxies ≡ 0
      → Selected p now (length p.proxies) p (select p now)
  unfolding select select_from
  empty_pool p now empty = inr (λ i h. absurd (omega arith), ground (arith, empty))

  -- A look through a valid pool raises nothing. Either it returns an available proxy, the first
  -- one in the cyclic order that begins at the cursor, and leaves the cursor on the place behind
  -- it; or no proxy is available, and then it returns `None` and the pool as it was. Only the
  -- cursor of the pool changes, and the pool stays valid.
  pub select-Selected :
      (p : ProxyPool F) (now : F.Float)
      → IsValid p
      → Selected p now (length p.proxies) p (select p now)
  unfolding select
  select-Selected p now v = elim (none_or_some p.proxies) [
    | inl empty ↦ empty_pool p now empty
    | inr pos ↦
        subst (λ q. Selected p now (length p.proxies) q (select_from (length p.proxies) p now))
          (whole_turn p v pos) (select_from-Selected (length p.proxies) p now v pos)
  ]
