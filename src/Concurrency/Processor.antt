-- ===== src/Concurrency/Processor.antt =====
-- src/bulk_http/concurrency/processor.py: from a task to its result, and a pass over tasks.
-- The state is the pool of proxies, the limiter and the world of the transport, the clock and the
-- sleep; the cache of matchers is left out, since a matcher depends on its needles alone. Tasks of
-- a pass run one after the other: the schedule of a concurrency of one.
pub mod Passes
use bulk_http.Prelude.{
  ℕ, zero, suc, String, Bool, true, false, Option, none, some, List, [], ◌∷◌, ◌++◌, ◌&&◌, ◌||◌,
  contains, string_keys, nat_keys, is_some,
}
use bulk_http.Prelude.Int.{ℤ, rounds}
use bulk_http.Except.{Except, ok, raise, key_error, ◌>>=◌}
use bulk_http.Effects.{Stateful, ◌then◌, lift}
use bulk_http.Floats.{Floats}
use bulk_http.Dict.{Dict, get, put}
use bulk_http.Types.{idempotent_methods}
use bulk_http.Models.{Task, Result}
use bulk_http.Config.{EngineConfig, ResolvedRequest, effective, or_default}
use bulk_http.Net.Transport.{RawResponse, Env}
use bulk_http.Net.Retry.{perform_with_retries, status_is}
use bulk_http.Proxies.Health.{Outcome, classify_outcome}
use bulk_http.Proxies.Pool.{ProxyPool, select, report, or_raise}
use bulk_http.Proxies.RateLimit.{DomainRateLimiter, Slot, acquire}
use bulk_http.Proxies.Adaptive.{AdaptiveRateLimiter, acquire_adaptive, record_adaptive}
use bulk_http.Evaluate.{Libraries, Predicate, new_matcher, evaluate}

-- no limiter, one without `record`, or one with it
pub data Limiter (F : Floats) : Type 0 where
  unlimited : Limiter F
  fixed : DomainRateLimiter F → Limiter F
  adaptive : AdaptiveRateLimiter F → Limiter F

-- the gate of robots.txt, with its effect on the world
pub record RobotsGate (W : Type 0) : Type 0 where
  pub allowed : String → W → Bool × W
  pub throttle : String → W → W

pub record Machine {F : Floats} (E : Env F) : Type 0 where
  pub pool : Option (ProxyPool F)
  pub limiter : Limiter F
  pub world : E.World

-- What a processor is given; `domain` is the host that urllib finds in a URL.
pub record Processor {F : Floats} (E : Env F) : Type 1 where
  pub config : EngineConfig F
  pub libraries : Libraries F
  pub predicate : Predicate libraries
  pub robots : Option (RobotsGate E.World)
  pub domain : String → Except String
  pub backoff_base : F.Float
  pub backoff_cap : F.Float

-- code that changes the state and may raise
abbrev pub Run {ℓ} : {F : Floats} → Env F → Type ℓ → Type ℓ
Run E A = Stateful (Machine E) A

-- the proxy that the pool picks, if it picks one
abbrev pub use_picked :
    {F : Floats} → ResolvedRequest F → Option String → ResolvedRequest F × Option String
use_picked q none = (q, none)
use_picked q (some proxy) = (record q { proxy = some proxy }, some proxy)

module _ {F : Floats} (E : Env F) where
  -- self._clock()
  abbrev pub now : Run E F.Float
  now s = let (t, w) = E.clock s.world in (ok t, record s { world = w })

  -- the sleep at the end of `acquire`
  abbrev pub rest : Option F.Float → Run E (Unit {0})
  rest none s = (ok tt, s)
  rest (some delay) s = (ok tt, record s { world = E.sleep delay s.world })

  -- self._rate_limiter.acquire(domain), where there is a limiter
  unfoldable pub acquire_slot : String → Run E (Unit {0})
  acquire_slot domain s = elim s.limiter [
    | unlimited ↦ (ok tt, s)
    | fixed l ↦
        (now then λ t s.
        let (slot, l') = acquire l domain t in rest slot.sleeps (record s { limiter = fixed l' }))
          s
    | adaptive l ↦
        (now then λ t s.
        let (slot, l') = acquire_adaptive l domain t in
        rest slot.sleeps (record s { limiter = adaptive l' }))
          s
  ]

  -- the pool's new state, after a call of one of its methods
  abbrev pub with_pool {ℓ} :
      {A : Type ℓ} → Except (A × ProxyPool F) → Machine E → Except A × Machine E
  with_pool (ok (a, p)) s = (ok a, record s { pool = some p })
  with_pool (raise x) s = (raise x, s)

  -- _report_proxy
  unfoldable pub report_proxy : Option String → Outcome → Run E (Unit {0})
  report_proxy none outcome s = (ok tt, s)
  report_proxy (some proxy) outcome s = elim s.pool [
    | none ↦ (ok tt, s)
    | some p ↦ (now then λ t. with_pool (report p proxy outcome t >>= λ p'. ok (tt, p'))) s
  ]

  -- _apply_proxy
  unfoldable pub apply_proxy : ResolvedRequest F → Run E (ResolvedRequest F × Option String)
  apply_proxy q s = elim q.proxy [
    | some proxy ↦ (ok (q, some proxy), s)
    | none ↦ elim s.pool [
      | none ↦ (ok (q, none), s)
      | some p ↦
          (now then (λ t. with_pool (select p t)) then λ picked. lift (ok (use_picked q picked))) s
    ]
  ]

  -- recorder(domain, outcome)
  unfoldable pub record_rate : String → Outcome → Run E (Unit {0})
  record_rate domain outcome s = elim s.limiter [
    | adaptive l ↦
        let (r, l') = record_adaptive l domain outcome in (r, record s { limiter = adaptive l' })
    | _ ↦ (ok tt, s)
  ]

-- getattr(self._rate_limiter, "record", None) is not None
abbrev pub is_adaptive : {F : Floats} → Limiter F → Bool
is_adaptive unlimited = false
is_adaptive (fixed l) = false
is_adaptive (adaptive l) = true

module _ {F : Floats} {E : Env F} (P : Processor E) where
  -- _send_bounded
  unfoldable pub send_bounded : ResolvedRequest F → Option String → Run E (RawResponse F)
  unfolding acquire_slot report_proxy
  send_bounded q proxy s = elim s.limiter [
    | unlimited ↦
        ((λ s.
              let (r, w) = perform_with_retries E P.backoff_base P.backoff_cap q s.world in
              (r, record s { world = w }))
            then λ response.
                report_proxy E proxy (classify_outcome response) then λ _. lift (ok response))
          s
    | _ ↦
        (lift (P.domain q.url)
            then acquire_slot E
            then (λ _ s.
                let (r, w) = perform_with_retries E P.backoff_base P.backoff_cap q s.world in
                (r, record s { world = w }))
            then λ response.
                report_proxy E proxy (classify_outcome response) then λ _. lift (ok response))
          s
  ]

  -- _send_adaptive
  unfoldable pub send_adaptive : ResolvedRequest F → Option String → Run E (RawResponse F)
  unfolding acquire_slot report_proxy record_rate
  send_adaptive q proxy = lift (P.domain q.url) then λ domain.
      acquire_slot E domain
      then (λ _ s. let (r, w) = E.perform q s.world in (ok r, record s { world = w }))
      then λ response.
          report_proxy E proxy (classify_outcome response)
          then (λ _. record_rate E domain (classify_outcome response))
          then λ _. lift (ok response)

  -- _send
  unfoldable pub send : ResolvedRequest F → Option String → Run E (RawResponse F)
  unfolding send_bounded send_adaptive
  send q proxy s = elim (is_adaptive s.limiter) [
    | true ↦ send_adaptive q proxy s
    | false ↦ send_bounded q proxy s
  ]

  -- the verdict on a response
  unfoldable pub judge_response : ResolvedRequest F → RawResponse F → Except Bool
  unfolding evaluate new_matcher
  judge_response q response = elim response.error [
    | some _ ↦ ok false
    | none ↦
        evaluate P.libraries response.status q.url response.headers response.fragment
          response.content_encoding (new_matcher P.libraries q.needles) q.expected_status
          P.predicate q.meta
        >>= λ verdict. ok verdict.0
  ]

  -- the result of a task whose request was sent
  abbrev pub result_of : Task F → ResolvedRequest F → RawResponse F → Bool → Result F
  result_of task q response matched = record {
    source_id = task.source_id;
    url = q.url;
    status = response.status;
    matched = matched;
    content = [];
    meta = q.meta;
    error = response.error;
    elapsed = response.elapsed;
  }

  -- the result of a task that robots.txt forbids
  abbrev pub disallowed : Task F → ResolvedRequest F → Result F
  disallowed task q = record {
    source_id = task.source_id;
    url = q.url;
    status = none;
    matched = false;
    content = [];
    meta = q.meta;
    error = some "robots_disallowed";
    elapsed = none;
  }

  -- the part of `process` behind the gate
  unfoldable pub process_allowed : Task F → ResolvedRequest F → Run E (Result F)
  unfolding apply_proxy send judge_response
  process_allowed task q = apply_proxy E q then λ routed. send routed.0 routed.1 then λ response.
      lift (judge_response routed.0 response) then λ matched.
      lift (ok (result_of task routed.0 response matched))

  -- the answer of the gate: a result at once, or the crawl delay and then the request
  unfoldable pub pass_gate :
      RobotsGate E.World → Bool → Task F → ResolvedRequest F → Run E (Result F)
  unfolding process_allowed
  pass_gate gate false task q s = (ok (disallowed task q), s)
  pass_gate gate true task q s =
      process_allowed task q (record s { world = gate.throttle q.url s.world })

  -- `if self._robots is not None`
  unfoldable pub gated : Option (RobotsGate E.World) → Task F → ResolvedRequest F → Run E (Result F)
  unfolding pass_gate
  gated none task q s = process_allowed task q s
  gated (some gate) task q s =
      let (pass, w) = gate.allowed q.url s.world in
      pass_gate gate pass task q (record s { world = w })

  -- TaskProcessor.process
  unfoldable pub process : Task F → Run E (Result F)
  unfolding gated effective
  process task = gated P.robots task (effective P.config task.request)

  -- _run_once
  unfoldable pub run_once : List (Task F) → Run E (List (Result F))
  unfolding process
  run_once [] = lift (ok [])
  run_once (task ∷ tasks) = process task then λ r. run_once tasks then λ rs. lift (ok (r ∷ rs))
