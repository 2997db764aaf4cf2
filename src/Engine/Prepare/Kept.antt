-- ===== src/Engine/Prepare/Kept.antt =====
-- The tasks that `_prepare` of src/bulk_http/engine/core.py lets through.
use bulk_http.Prelude.{
  ℕ, suc, ◌+◌, ◌≡◌, refl, ap, sym, inl, inr, String, Bool, true, false, Option, List, [], ◌∷◌, ◌⊎◌,
  if◌then◌else◌, arith,
}
use bulk_http.Except.{Error, Except, ok, raise, ◌>>=◌}
use bulk_http.Floats.{Floats}
use bulk_http.Models.{Request, Task, post_init}
use bulk_http.Config.Validity.{post_init_same, ok_same}
use bulk_http.Texts.{Texts}
use bulk_http.Compliance.Filter.{ComplianceFilter, is_allowed}
use bulk_http.Engine.Prepare.{prepare, prepare_request, changed, has_changes}

module _ {F : Floats} where
  -- the same task, as far as what is sent where is concerned
  pub record IsSameTask (t u : Task F) : Type 0 where
    pub id : u.source_id ≡ t.source_id
    pub url : u.request.url ≡ t.request.url
    pub method : u.request.method ≡ t.request.method
    pub body : u.request.body ≡ t.request.body

  -- The tasks whose hosts the filter allows, in order.
  pub data Allowed (hostname : String → Except (Option String)) (f : ComplianceFilter)
      : ℕ → List (Task F) → List (Task F) → Type 0 where
    done : Allowed hostname f 0 [] []
    skips :
        {n : ℕ} {ts us : List (Task F)} (t : Task F)
        → is_allowed hostname f t.request.url ≡ ok false
        → Allowed hostname f n ts us
        → Allowed hostname f (suc n) (t ∷ ts) us
    keeps :
        {n : ℕ} {ts us : List (Task F)} (t u : Task F)
        → is_allowed hostname f t.request.url ≡ ok true
        → IsSameTask t u
        → Allowed hostname f n ts us
        → Allowed hostname f n (t ∷ ts) (u ∷ us)

module _ {F : Floats} (T : Texts) (f : ComplianceFilter) (needle : String) where
  -- a task of the source at which the filter or the checks raise this error
  pub data Fails (hostname : String → Except (Option String)) (x : Error)
      : List (Task F) → Type 0 where
    unread :
        {ts : List (Task F)} (t : Task F)
        → is_allowed hostname f t.request.url ≡ raise x
        → Fails hostname x (t ∷ ts)
    unfit :
        {ts : List (Task F)} (t : Task F)
        → prepare_request T f needle t.request ≡ raise x
        → Fails hostname x (t ∷ ts)
    behind : {ts : List (Task F)} (t : Task F) → Fails hostname x ts → Fails hostname x (t ∷ ts)

  -- what the whole run comes to, after `k` tasks were skipped before
  pub Prepared :
      (String → Except (Option String)) → ℕ → List (Task F) → Except (List (Task F) × ℕ) → Type 0
  Prepared hostname k ts (ok (us, m)) = (n : ℕ) × (m ≡ k + n) × Allowed hostname f n ts us
  Prepared hostname k ts (raise x) = Fails hostname x ts

  either_request :
      (b : Bool) (r s r' : Request F)
      → (if b then post_init s else ok r) ≡ ok r'
      → (r ≡ r') ⊎ (s ≡ r')
  either_request true r s r' h = inr (post_init_same s r' h)
  either_request false r s r' h = inl (ok_same r r' h)

  prepare_request-IsSameTask :
      (t : Task F) (r' : Request F)
      → prepare_request T f needle t.request ≡ ok r'
      → IsSameTask t (record { source_id = t.source_id; request = r' })
  unfolding prepare_request changed
  prepare_request-IsSameTask t r' h =
      let r = t.request in
      elim (either_request (has_changes T f needle r) r (changed T f needle r) r' h) [
        | inl e ↦ record {
          id = refl;
          url = ap (λ x. x.url) (sym e);
          method = ap (λ x. x.method) (sym e);
          body = ap (λ x. x.body) (sym e);
        }
        | inr e ↦ record {
          id = refl;
          url = ap (λ x. x.url) (sym e);
          method = ap (λ x. x.method) (sym e);
          body = ap (λ x. x.body) (sym e);
        }
      ]

  step :
      (hostname : String → Except (Option String)) (t : Task F) (ts : List (Task F)) (k : ℕ)
      (allowed : Except Bool) (request : Except (Request F))
      (skipping going : Except (List (Task F) × ℕ))
      → is_allowed hostname f t.request.url ≡ allowed
      → prepare_request T f needle t.request ≡ request
      → Prepared hostname (suc k) ts skipping
      → Prepared hostname k ts going
      → Prepared hostname k (t ∷ ts) (
          allowed >>= λ b. elim b [
            | false ↦ skipping
            | true ↦ request >>= λ r. going >>= λ rest.
                ok (record { source_id = t.source_id; request = r } ∷ rest.0, rest.1)
          ])
  unfolding Prepared
  step hostname t ts k (raise x) request skipping going a q s g = unread t a
  step hostname t ts k (ok false) request (raise x) going a q s g = behind t s
  step hostname t ts k (ok false) request (ok (us, m)) going a q (n, e, all) g =
      (suc n, omega arith, skips t a all)
  step hostname t ts k (ok true) (raise x) skipping going a q s g = unfit t q
  step hostname t ts k (ok true) (ok r) skipping (raise x) a q s g = behind t g
  step hostname t ts k (ok true) (ok r) skipping (ok (us, m)) a q s (n, e, all) = (
    n,
    e,
    keeps t (record { source_id = t.source_id; request = r }) a (prepare_request-IsSameTask t r q)
        all,
  )

  -- What `_prepare` yields are the tasks of the source whose hosts the filter allows, in the order
  -- of the source, with the same ids, URLs, methods and bodies; the counter goes up by the number
  -- of the others. It raises only what reading the URL of some task of the source, or checking
  -- its changed request, raises.
  pub prepare-Prepared :
      (hostname : String → Except (Option String)) (ts : List (Task F)) (k : ℕ)
      → Prepared hostname k ts (prepare T f needle hostname ts k)
  unfolding prepare Prepared
  prepare-Prepared hostname [] k = (0, omega arith, done)
  prepare-Prepared hostname (t ∷ ts) k =
      step hostname t ts k (is_allowed hostname f t.request.url)
        (prepare_request T f needle t.request) (prepare T f needle hostname ts (suc k))
        (prepare T f needle hostname ts k) refl refl (prepare-Prepared hostname ts (suc k))
        (prepare-Prepared hostname ts k)
