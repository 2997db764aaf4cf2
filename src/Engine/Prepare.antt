-- ===== src/Engine/Prepare.antt =====
-- `_prepare` and `distributed` of src/bulk_http/engine/core.py: the tasks that pass the domain lists,
-- with what the engine adds to them, and the batches that were not committed before. `_prepare` is
-- lazy in Python; here it is run to its end, and the number of skipped tasks comes with its tasks.
pub mod Kept
use bulk_http.Prelude.{
  ℕ, suc, ◌+◌, String, Bool, true, false, Option, none, some, List, [], ◌∷◌, ◌++◌, ◌&&◌, ◌||◌, not,
  ◌==◌, string_keys, nat_keys, contains, is_some, if◌then◌else◌,
}
use bulk_http.Except.{Except, ok, ◌>>=◌}
use bulk_http.Floats.{Floats}
use bulk_http.Dict.{Dict}
use bulk_http.Models.{Request, Task, post_init}
use bulk_http.Config.{or_default}
use bulk_http.Texts.{Texts}
use bulk_http.Compliance.Filter.{ComplianceFilter, is_allowed, apply_headers, annotate_meta}

-- `new_headers != (request.headers or {})`: the filter adds a key at the end or nothing, so the
-- dicts are equal exactly when their entries are, in order.
unfoldable pub same_headers : Dict String String → Dict String String → Bool
same_headers [] [] = true
same_headers [] (e ∷ es) = false
same_headers (d ∷ ds) [] = false
same_headers ((k, v) ∷ ds) ((j, w) ∷ es) = k == j && (v == w && same_headers ds es)

module _ {F : Floats} (T : Texts) (f : ComplianceFilter) (needle : String) where
  -- the request with the changes to its needles, its headers and its metadata
  unfoldable pub changed : Request F → Request F
  unfolding same_headers
  changed r = record r {
    needles = if needle == "" then r.needles else r.needles ++ needle ∷ [];
    headers =
        if same_headers (apply_headers T f r.headers) (or_default r.headers [])
        then r.headers
        else some (apply_headers T f r.headers);
    meta = annotate_meta f r.meta;
  }

  -- `bool(changes)`: `annotate_meta` returns another dict exactly when there is a note
  unfoldable pub has_changes : Request F → Bool
  unfolding same_headers
  has_changes r =
      not (needle == "")
      || (not (same_headers (apply_headers T f r.headers) (or_default r.headers []))
          || is_some f.authorization)

  -- `replace(request, **changes) if changes else request`: replacing runs the checks again
  unfoldable pub prepare_request : Request F → Except (Request F)
  unfolding changed has_changes post_init
  prepare_request r = if has_changes r then post_init (changed r) else ok r

  -- Engine._prepare, with the number of tasks that were skipped before
  unfoldable pub prepare :
      (String → Except (Option String)) → List (Task F) → ℕ → Except (List (Task F) × ℕ)
  unfolding prepare_request
  prepare hostname [] skipped = ok ([], skipped)
  prepare hostname (task ∷ tasks) skipped = is_allowed hostname f task.request.url >>= λ allowed.
      elim allowed [
        | false ↦ prepare hostname tasks (suc skipped)
        | true ↦ prepare_request task.request >>= λ request.
            prepare hostname tasks skipped >>= λ rest.
            ok (record { source_id = task.source_id; request = request } ∷ rest.0, rest.1)
      ]

-- `distributed`: the batches, numbered from `n`, that are not committed
unfoldable pub distributed {ℓ} : {B : Type ℓ} → List ℕ → ℕ → List B → List (ℕ × B)
distributed committed n [] = []
distributed committed n (batch ∷ batches) =
    let rest = distributed committed (suc n) batches in
    if contains committed n then rest else (n, batch) ∷ rest
