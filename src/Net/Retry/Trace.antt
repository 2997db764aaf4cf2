-- ===== src/Net/Retry/Trace.antt =====
-- A world that keeps a log of what was done in it, and the traces that the retry policy permits.
use bulk_http.Prelude.{ℕ, suc, ◌≡◌, true, false, Option, none, some, List, [], ◌∷◌, ◌++◌}
use bulk_http.Except.{ok}
use bulk_http.Floats.{Floats}
use bulk_http.Config.{ResolvedRequest}
use bulk_http.Net.Transport.{RawResponse, Env}
use bulk_http.Net.Retry.{is_transient, is_replayable, backoff, reaches, perform_with_retries}

pub data Event (F : Floats) : Type 0 where
  performed : ResolvedRequest F → RawResponse F → Event F
  -- a reading of the clock, and one of the jitter
  looked drew : F.Float → Event F
  slept : F.Float → Event F

-- The same world with a log, oldest event first.
abbrev pub traced : {F : Floats} → Env F → Env F
traced {F} E = record {
  World = E.World × List (Event F);
  perform = λ q s. let (r, w) = E.perform q s.0 in (r, (w, s.1 ++ performed q r ∷ []));
  clock = λ s. let (t, w) = E.clock s.0 in (t, (w, s.1 ++ looked t ∷ []));
  jitter = λ s. let (j, w) = E.jitter s.0 in (j, (w, s.1 ++ drew j ∷ []));
  sleep = λ d s. (E.sleep d s.0, s.1 ++ slept d ∷ []);
}

-- Whether a pause that would begin at `now` stays short of the deadline.
abbrev pub InTime : (F : Floats) → Option F.Float → F.Float → F.Float → Type 0
InTime F none now delay = Unit
InTime F (some deadline) now delay = reaches F deadline now delay ≡ false

-- the clock is read in front of a pause only if there is a deadline
abbrev pub look : {F : Floats} → Option F.Float → F.Float → List (Event F) → List (Event F)
look none now es = es
look (some deadline) now es = looked now ∷ es

module _ {F : Floats} where
  -- Why no further attempt is made after a response, with nothing else read.
  pub data Stops (q : ResolvedRequest F) (left : ℕ) (r : RawResponse F) : Type 0 where
    settled : is_transient r ≡ false → Stops q left r
    unsafe : is_replayable q ≡ false → Stops q left r
    used_up : left ≡ 0 → Stops q left r

  -- What stands in the log behind the last response: nothing, or the reading of the jitter and that
  -- of the clock which shows that the pause would reach the deadline.
  pub data Ends (q : ResolvedRequest F) (base cap : F.Float) (deadline : Option F.Float)
      (k left : ℕ) (r : RawResponse F) : List (Event F) → Type 0 where
    stopped : Stops q left r → Ends q base cap deadline k left r []
    out_of_time :
        (d j now : F.Float)
        → is_transient r ≡ true
        → deadline ≡ some d
        → reaches F d now (backoff F base cap k j) ≡ true
        → Ends q base cap deadline k left r (drew j ∷ looked now ∷ [])

  -- The traces of at most `left` retries after attempt `k`: every retry follows a transient
  -- response to a request that may be replayed, a reading `j` of the jitter, a reading `now` of the
  -- clock if there is a deadline, and a pause of the backoff's length for `j` which, begun at
  -- `now`, ends before the deadline.
  pub data Permitted (q : ResolvedRequest F) (base cap : F.Float) (deadline : Option F.Float)
      : ℕ → ℕ → List (Event F) → RawResponse F → Type 0 where
    last :
        {k left : ℕ} {tail : List (Event F)} {r : RawResponse F}
        → Ends q base cap deadline k left r tail
        → Permitted q base cap deadline k left (performed q r ∷ tail) r
    retry :
        {k left : ℕ} {es : List (Event F)} {r : RawResponse F} (r₀ : RawResponse F)
        → (j now : F.Float) → is_transient r₀ ≡ true
        → is_replayable q ≡ true
        → InTime F deadline now (backoff F base cap k j)
        → Permitted q base cap deadline (suc k) left es r
        → Permitted q base cap deadline k
            (suc left)
            (performed q r₀ ∷ drew j ∷ look deadline now (slept (backoff F base cap k j) ∷ es))
            r

  -- The traces of a whole call with `m` retries: with a total timeout, the first event is a reading
  -- of the clock, and the deadline is that reading and the timeout.
  pub data FollowsPolicy (q : ResolvedRequest F) (base cap : F.Float) (m : ℕ)
      : List (Event F) → RawResponse F → Type 0 where
    unbounded :
        {es : List (Event F)} {r : RawResponse F}
        → q.total_timeout ≡ none
        → Permitted q base cap none 0 m es r
        → FollowsPolicy q base cap m es r
    bounded :
        {es : List (Event F)} {r : RawResponse F} (t start : F.Float)
        → q.total_timeout ≡ some t
        → Permitted q base cap (some (F.add_f start t)) 0 m es r
        → FollowsPolicy q base cap m (looked start ∷ es) r

-- The retry loop, run in a world with a log, returns a response; what it adds to the log and the
-- response have a property.
abbrev pub Runs :
    {F : Floats} (E : Env F)
    → F.Float
    → F.Float
    → ResolvedRequest F
    → E.World
    → List (Event F)
    → (List (Event F) → RawResponse F → Type 0)
    → Type 0
Runs {F} E base cap q w es P =
    (r : RawResponse F) × (w' : E.World) × (new : List (Event F)) × (perform_with_retries (traced E)
        base cap q (w, es)
      ≡ (ok r, (w', es ++ new)))
    × P new r

-- How often the transport was called, and how often the loop slept.
abbrev pub requests : {F : Floats} → List (Event F) → ℕ
requests [] = 0
requests (performed q r ∷ es) = suc (requests es)
requests (looked t ∷ es) = requests es
requests (drew j ∷ es) = requests es
requests (slept d ∷ es) = requests es

abbrev pub pauses : {F : Floats} → List (Event F) → ℕ
pauses [] = 0
pauses (performed q r ∷ es) = pauses es
pauses (looked t ∷ es) = pauses es
pauses (drew j ∷ es) = pauses es
pauses (slept d ∷ es) = suc (pauses es)
