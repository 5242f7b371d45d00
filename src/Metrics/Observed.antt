-- ===== src/Metrics/Observed.antt =====
-- Which requests are observed.
use workflowhub.Prelude.{
  ◌≡◌, ◌⊎◌, refl, String, Option, Option-cases, inl, inr, none, some, [], ◌∷◌, ◌++◌, Result, ok,
  err, Promise, after, truthy_value,
}
use workflowhub.Json.{decimal}
use workflowhub.Metrics.{Request, Observation, World, observation_of, tapped, intercept}

-- The path of the route, or else the URL.
abbrev pub RouteOf : Request → String → Type 0
RouteOf request route =
    (request.route_path ≡ some route) ⊎ ((request.route_path ≡ none) × (route ≡ request.url))

-- What is measured of a request that was handled from one state to another.
pub record Measures (M : World) (request : Request) (verb : String) (s w : M.State)
    (o : Observation) : Type 0 where
  pub verb_is : o.verb ≡ verb
  pub route_is : RouteOf request o.route
  pub status_is : o.status_code ≡ decimal (M.status_code w)
  pub started_is : o.started ≡ M.now s
  pub ended_is : o.ended ≡ M.now w

-- What the histogram has been given after a handler, as it should be.
abbrev pub Recorded :
    (M : World) {A : Type 0}
    → Request
    → String
    → M.State
    → Result A × M.State
    → Result A × M.State
    → Type 0
Recorded M request verb s (ok a, w) end =
    (end.0 ≡ ok a)
    × ((o : Observation) × Measures M request verb s w o
        × (M.observations end.1 ≡ M.observations w ++ o ∷ []))
Recorded M request verb s (err e, w) end = (end.0 ≡ err e) × (end.1 ≡ w)

observation_of-Measures :
    (M : World) (request : Request) (verb : String) (s w : M.State)
    → Measures M request verb s w (observation_of M request verb (M.now s) w)
observation_of-Measures M request verb s w = record {
  verb_is = refl;
  route_is = elim (Option-cases request.route_path) [
    | inl missing ↦ inr (missing, rw missing refl)
    | inr (path, there) ↦ inl (rw there refl)
  ];
  status_is = refl;
  started_is = refl;
  ended_is = refl;
}

module _ (M : World) {A : Type 0} where
  recorded :
      (request : Request) (verb : String) (s : M.State) (r : Result A × M.State)
      → Recorded M request verb s r (
          after r
            (λ a w. (ok a, M.observe (observation_of M request verb (M.now s) w) w))
            (λ e w. (err e, w)))
  recorded request verb s (ok a, w) =
      let o = observation_of M request verb (M.now s) w in
      (refl, (o, observation_of-Measures M request verb s w, M.observations-observe o w))
  recorded request verb s (err e, w) = (refl, refl)

  tapped-Recorded :
      (request : Request) (verb : String) (handler : Promise M.State A) (s : M.State)
      → Recorded M request verb s (handler s) (tapped M request verb handler s)
  unfolding tapped
  tapped-Recorded request verb handler s = recorded request verb s (handler s)

  -- The interceptor passes on what the handler answers. A request that is answered by a value adds one
  -- observation, with its method, the path of its route or else its URL, the status of the response
  -- and the times before and after the handler; a request that fails adds none, so that no failure is
  -- ever measured.
  pub intercept-Recorded :
      (request : Request) (verb : String) (handler : Promise M.State A) (s : M.State)
      → truthy_value request.verb ≡ some verb
      → Recorded M request verb s (handler s) (intercept M (some request) handler s)
  unfolding intercept
  intercept-Recorded request verb handler s h =
      rw (intercept, h) (tapped-Recorded request verb handler s)

-- What an observation keeps, the interceptor keeps.
module _ (M : World) {A X : Type 0} (f : M.State → X)
    (kept : (o : Observation) (s : M.State) → f (M.observe o s) ≡ f s) where
  observed_kept :
      (request : Request) (verb : String) (s : M.State) (r : Result A × M.State)
      → f
          (after {R = Result A × M.State} r
            (λ a w. (ok a, M.observe (observation_of M request verb (M.now s) w) w))
            (λ e w. (err e, w))).1
        ≡ f r.1
  observed_kept request verb s (ok a, w) = kept (observation_of M request verb (M.now s) w) w
  observed_kept request verb s (err e, w) = refl

  pub intercept_kept :
      (request : Option Request) (handler : Promise M.State A) (s : M.State)
      → f (intercept M request handler s).1 ≡ f (handler s).1
  unfolding intercept tapped
  intercept_kept none handler s = refl
  intercept_kept (some request) handler s = elim (Option-cases (truthy_value request.verb)) [
    | inl missing ↦ rw (intercept, missing) refl
    | inr (verb, there) ↦ rw (intercept, there) (observed_kept request verb s (handler s))
  ]

-- Nor does the interceptor change what a request is answered.
module _ (M : World) {A : Type 0} where
  tapped_same :
      (request : Request) (verb : String) (s : M.State) (r : Result A × M.State)
      → (after {R = Result A × M.State} r
          (λ a w. (ok a, M.observe (observation_of M request verb (M.now s) w) w))
          (λ e w. (err e, w))).0
        ≡ r.0
  tapped_same request verb s (ok a, w) = refl
  tapped_same request verb s (err e, w) = refl

  pub intercept_same :
      (request : Option Request) (handler : Promise M.State A) (s : M.State)
      → (intercept M request handler s).0 ≡ (handler s).0
  unfolding intercept tapped
  intercept_same none handler s = refl
  intercept_same (some request) handler s = elim (Option-cases (truthy_value request.verb)) [
    | inl missing ↦ rw (intercept, missing) refl
    | inr (verb, there) ↦ rw (intercept, there) (tapped_same request verb s (handler s))
  ]
