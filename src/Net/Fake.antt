-- ===== src/Net/Fake.antt =====
-- src/bulk_http/net/fake.py: the transport that a responder drives, and a world above it with a
-- clock that a sleep moves on.
use bulk_http.Prelude.{ℕ, zero, suc, List, [], ◌∷◌, ◌++◌, length}
use bulk_http.Floats.{Floats}
use bulk_http.Config.{ResolvedRequest}
use bulk_http.Net.Transport.{RawResponse, Env}

abbrev pub Responder : Floats → Type 0
Responder F = ResolvedRequest F → ℕ → RawResponse F

pub record FakeTransport (F : Floats) : Type 0 where
  pub responder : Responder F
  pub calls : List (ResolvedRequest F)

module _ {F : Floats} where
  -- FakeTransport(responder)
  abbrev pub fake : Responder F → FakeTransport F
  fake f = record { responder = f; calls = [] }

  -- FakeTransport.constant
  unfoldable pub constant : RawResponse F → FakeTransport F
  constant r = fake (λ q attempt. r)

  -- responses[min(attempt, len(responses) - 1)], where `first` is the head of the list
  abbrev pick : RawResponse F → List (RawResponse F) → ℕ → RawResponse F
  pick first [] attempt = first
  pick first (second ∷ rest) zero = first
  pick first (second ∷ rest) (suc attempt) = pick second rest attempt

  -- FakeTransport.sequence, on a list that is not empty
  unfoldable pub sequence : RawResponse F → List (RawResponse F) → FakeTransport F
  sequence first rest = fake (λ q attempt. pick first rest attempt)

  -- FakeTransport.perform
  unfoldable pub perform : ResolvedRequest F → FakeTransport F → RawResponse F × FakeTransport F
  perform q t = (t.responder q (length t.calls), record t { calls = t.calls ++ q ∷ [] })

pub record FakeWorld (F : Floats) : Type 0 where
  pub transport : FakeTransport F
  pub now : F.Float

-- The fake transport with a clock, and a jitter that does not vary.
abbrev pub fake_env : (F : Floats) → F.Float → Env F
fake_env F j = record {
  World = FakeWorld F;
  perform = λ q w. let (r, t) = perform q w.transport in (r, record { transport = t; now = w.now });
  clock = λ w. (w.now, w);
  jitter = λ w. (j, w);
  sleep = λ d w. record { transport = w.transport; now = F.add_f w.now d };
}
