-- ===== src/Net/Retry.antt =====
-- src/bulk_http/net/retry.py: the retry loop.
pub mod Trace
pub mod Refinement
pub mod Budget
use bulk_http.Prelude.{
  ℕ, zero, suc, ◌^◌, Bool, true, false, Option, none, some, not, ◌||◌, if◌then◌else◌, nat_beq,
  is_some,
}
use bulk_http.Prelude.Int.{ℤ, pos, negsuc}
use bulk_http.Except.{Except, ok, raise, assertion_error}
use bulk_http.Floats.{Floats, lt_f, min_f}
use bulk_http.Config.{ResolvedRequest, is_idempotent}
use bulk_http.Net.Transport.{RawResponse, Env}

-- `status == n`
abbrev pub status_is : Option ℕ → ℕ → Bool
status_is none n = false
status_is (some s) n = nat_beq s n

-- `attempt == z`
abbrev pub is_int : ℕ → ℤ → Bool
is_int n (pos m) = nat_beq n m
is_int n (negsuc m) = false

-- the rounds of `range(z + 1)`
abbrev pub rounds_after : ℤ → ℕ
rounds_after (pos n) = suc n
rounds_after (negsuc n) = 0

-- What one round of the loop comes to.
pub data Verdict (F : Floats) : Type 0 where
  finish again : RawResponse F → Verdict F

module _ {F : Floats} where
  -- _is_transient
  unfoldable pub is_transient : RawResponse F → Bool
  is_transient r = is_some r.error || status_is r.status 429

  -- resolved.is_idempotent or resolved.retry_non_idempotent
  unfoldable pub is_replayable : ResolvedRequest F → Bool
  unfolding is_idempotent
  is_replayable q = is_idempotent q || q.retry_non_idempotent

-- min(backoff_cap, backoff_base * (2**attempt)) + jitter() * backoff_base
unfoldable pub backoff : (F : Floats) → F.Float → F.Float → ℕ → F.Float → F.Float
backoff F base cap attempt j =
    F.add_f (min_f F cap (F.mul_f base (F.of_nat (2 ^ attempt)))) (F.mul_f j base)

-- `deadline is not None and now + delay >= deadline`
abbrev pub reaches : (F : Floats) → F.Float → F.Float → F.Float → Bool
reaches F deadline now delay = F.le_f deadline (F.add_f now delay)

module _ {F : Floats} (E : Env F) (base cap : F.Float) (q : ResolvedRequest F) where
  -- the last lines of the loop's body: look at the clock if there is a deadline, then sleep
  unfoldable pub pause : Option F.Float → F.Float → RawResponse F → E.World → Verdict F × E.World
  pause none delay r w = (again r, E.sleep delay w)
  pause (some deadline) delay r w =
      let (now, w') = E.clock w in
      if reaches F deadline now delay then (finish r, w') else (again r, E.sleep delay w')

  -- the body of the loop, after the request was made
  unfoldable pub judge : Option F.Float → ℕ → RawResponse F → E.World → Verdict F × E.World
  unfolding pause
  judge deadline attempt r w =
      if not (is_transient r)
      then (finish r, w)
      else if not (is_replayable q)
      then (finish r, w)
      else if is_int attempt q.retries
      then (finish r, w)
      else let (j, w') = E.jitter w in pause deadline (backoff F base cap attempt j) r w'

  unfoldable pub attempt_once : Option F.Float → ℕ → E.World → Verdict F × E.World
  unfolding judge
  attempt_once deadline attempt w = let (r, w') = E.perform q w in judge deadline attempt r w'

  -- the lines after the loop: `assert last is not None; return last`
  abbrev after_loop : Option (RawResponse F) → Except (RawResponse F)
  after_loop none = raise assertion_error
  after_loop (some r) = ok r

  -- `for attempt in range(resolved.retries + 1)`
  unfoldable pub attempts :
      Option F.Float → ℕ → ℕ → Option (RawResponse F) → E.World → Except (RawResponse F) × E.World
  attempts deadline zero attempt last w = (after_loop last, w)
  attempts deadline (suc n) attempt last w =
      let (v, w') = attempt_once deadline attempt w in
      elim v [ finish r ↦ (ok r, w') | again r ↦ attempts deadline n (suc attempt) (some r) w' ]

  -- the deadline, read off the clock only when there is a total timeout
  unfoldable pub deadline_for : E.World → Option F.Float × E.World
  deadline_for w = elim q.total_timeout [
    | none ↦ (none, w)
    | some t ↦ let (now, w') = E.clock w in (some (F.add_f now t), w')
  ]

  unfoldable pub perform_with_retries : E.World → Except (RawResponse F) × E.World
  perform_with_retries w =
      let (deadline, w') = deadline_for w in attempts deadline (rounds_after q.retries) 0 none w'
