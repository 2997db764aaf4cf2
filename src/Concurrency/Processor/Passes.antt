-- ===== src/Concurrency/Processor/Passes.antt =====
-- One pass of src/bulk_http/concurrency/processor.py over a list of tasks.
use bulk_http.Prelude.{
  Bool, true, false, Option, none, some, List, [], ◌∷◌, map, ◌≡◌, refl, ap₂, nat_keys,
}
use bulk_http.Except.{Error}
use bulk_http.Effects.{lift}
use bulk_http.Effects.Ensures.{Ensures, Ensures-then, Ensures-any}
use bulk_http.Floats.{Floats}
use bulk_http.Models.{Task, Result}
use bulk_http.Net.Transport.{Env}
use bulk_http.Config.{effective, ResolvedRequest}
use bulk_http.Concurrency.Processor.{
  Processor, Machine, process, process_allowed, apply_proxy, send, judge_response, run_once,
  pass_gate, gated, RobotsGate,
}

abbrev pub AnyError : Error → Type 0
AnyError x = Unit

abbrev Anything : {A : Type 0} → A → Type 0
Anything a = Unit

module _ {F : Floats} {E : Env F} (P : Processor E) where
  abbrev HasId : Task F → Result F → Type 0
  HasId task r = r.source_id ≡ task.source_id

  process_allowed-HasId :
      (task : Task F) (q : ResolvedRequest F) (s : Machine E)
      → Ensures (HasId task) AnyError (process_allowed P task q s)
  unfolding process_allowed Ensures lift
  process_allowed-HasId task q s =
      Ensures-then Anything (HasId task) AnyError (apply_proxy E q) _ s
        (Ensures-any (apply_proxy E q s))
        λ routed s₁ _.
          Ensures-then Anything (HasId task) AnyError (send P routed.0 routed.1) _ s₁
            (Ensures-any (send P routed.0 routed.1 s₁))
            λ response s₂ _.
              Ensures-then Anything (HasId task) AnyError
                (lift (judge_response P routed.0 response)) _ s₂
                (Ensures-any (lift (judge_response P routed.0 response) s₂)) λ matched s₃ _. refl

  pass_gate-HasId :
      (gate : RobotsGate E.World) (pass : Bool) (task : Task F) (q : ResolvedRequest F)
      (s : Machine E)
      → Ensures (HasId task) AnyError (pass_gate P gate pass task q s)
  unfolding pass_gate Ensures
  pass_gate-HasId gate false task q s = refl
  pass_gate-HasId gate true task q s =
      process_allowed-HasId task q (record s { world = gate.throttle q.url s.world })

  gated-HasId :
      (gate : Option (RobotsGate E.World)) (task : Task F) (q : ResolvedRequest F) (s : Machine E)
      → Ensures (HasId task) AnyError (gated P gate task q s)
  unfolding gated
  gated-HasId none task q s = process_allowed-HasId task q s
  gated-HasId (some gate) task q s =
      let (pass, w) = gate.allowed q.url s.world in
      pass_gate-HasId gate pass task q (record s { world = w })

  process-HasId : (task : Task F) (s : Machine E) → Ensures (HasId task) AnyError (process P task s)
  unfolding process
  process-HasId task s = gated-HasId P.robots task (effective P.config task.request) s

  abbrev pub SameIds : List (Task F) → List (Result F) → Type 0
  SameIds tasks rs = map (λ r. r.source_id) rs ≡ map (λ t. t.source_id) tasks

  pub run_once-SameIds :
      (tasks : List (Task F)) (s : Machine E)
      → Ensures (SameIds tasks) AnyError (run_once P tasks s)
  unfolding run_once Ensures lift
  run_once-SameIds [] s = refl
  run_once-SameIds (task ∷ tasks) s =
      Ensures-then (HasId task) (SameIds (task ∷ tasks)) AnyError (process P task) _ s
        (process-HasId task s)
        λ r s₁ one.
          Ensures-then (SameIds tasks) (SameIds (task ∷ tasks)) AnyError (run_once P tasks) _ s₁
            (run_once-SameIds tasks s₁) λ rs s₂ more. ap₂ ◌∷◌ one more
