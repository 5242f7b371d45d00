-- ===== src/Metrics.antt =====
-- apps/api-gateway/src/common/interceptors/metrics.interceptor.ts: the durations of requests.
pub mod Observed
pub mod Tests
use workflowhub.Prelude.{
  ◌≡◌, ℕ, String, Bool, Option, none, some, truthy, List, [], ◌∷◌, ◌++◌, Error, Result, ok, err,
  Promise, after, truthy_value,
}
use workflowhub.Json.{decimal}

-- What the interceptor reads of a request; `route_path` is that of `request.route`.
pub record Request : Type 0 where
  pub verb : Option String
  pub route_path : Option String
  pub url : String

-- The labels and the value that the histogram is given: the value is `(ended - started) / 1000`, here
-- by the two readings of the clock, since a clock may be set back in between.
pub record Observation : Type 0 where
  pub verb : String
  pub route : String
  pub status_code : String
  pub started : ℕ
  pub ended : ℕ

-- The clock, the response and the histogram.
pub record World : Type 1 where
  pub State : Type 0
  pub now : State → ℕ
  pub status_code : State → ℕ
  pub observations : State → List Observation
  pub observe : Observation → State → State
  pub observations-observe :
      (o : Observation) (s : State) → observations (observe o s) ≡ observations s ++ o ∷ []

module _ (M : World) where
  -- What is observed in a state, of a request that started at a time.
  abbrev pub observation_of : Request → String → ℕ → M.State → Observation
  observation_of request verb start s = record {
    verb = verb;
    route = elim request.route_path [ none ↦ request.url | some path ↦ path ];
    status_code = decimal (M.status_code s);
    started = start;
    ended = M.now s;
  }

  -- `tap` with one function runs it on a value only.
  pub tapped : {A : Type 0} → Request → String → Promise M.State A → Promise M.State A
  tapped request verb handler s =
      after (handler s) (λ a w. (ok a, M.observe (observation_of request verb (M.now s) w) w))
        (λ e w. (err e, w))

  -- `intercept`, over the handler of the request.
  pub intercept : {A : Type 0} → Option Request → Promise M.State A → Promise M.State A
  unfolding tapped
  intercept none handler = handler
  intercept (some request) handler = elim (truthy_value request.verb) [
    | none ↦ handler
    | some verb ↦ tapped request verb handler
  ]
