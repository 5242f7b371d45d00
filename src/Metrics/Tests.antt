-- ===== src/Metrics/Tests.antt =====
-- A histogram in memory, and a request that takes 40 milliseconds.
use workflowhub.Prelude.{◌≡◌, refl, ℕ, ◌+◌, String, some, List, [], ◌∷◌, ◌++◌, ok, Promise}
use workflowhub.Json.{decimal}
use workflowhub.Metrics.{Request, Observation, World, intercept}
use workflowhub.Metrics.Observed.{Recorded, intercept-Recorded}

pub record Memory : Type 0 where
  pub clock : ℕ
  pub seen : List Observation

abbrev pub memory : World
memory = record {
  State = Memory;
  now = λ m. m.clock;
  status_code = λ m. 201;
  observations = λ m. m.seen;
  observe = λ o m. record m { seen = m.seen ++ o ∷ [] };
  observations-observe = λ o m. refl;
}

abbrev handler : Promise Memory String
handler m = (ok "token", record m { clock = m.clock + 40 })

abbrev request : Request
request = record { verb = some "POST"; route_path = some "/auth/login"; url = "/auth/login?x" }

abbrev pub start : Memory
start = record { clock = 1000; seen = [] }

abbrev expected : Observation
expected = record {
  verb = "POST";
  route = "/auth/login";
  status_code = "201";
  started = 1000;
  ended = 1040;
}

observed : (intercept memory (some request) handler start).1.seen ≡ expected ∷ []
unfolding intercept decimal
observed = refl

intercept-Recorded_example :
    Recorded memory request "POST" start
      (handler start)
      (intercept memory (some request) handler start)
intercept-Recorded_example = intercept-Recorded memory request "POST" handler start refl
