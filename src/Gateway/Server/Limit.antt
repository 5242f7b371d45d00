-- ===== src/Gateway/Server/Limit.antt =====
-- The services behind a route, however many requests come.
use workflowhub.Prelude.{
  ◌≡◌, refl, ◌∙◌, ap, ap₂, fun_ext, ℕ, zero, suc, ◌+◌, ◌≤◌, ltb, String, Bool, true, false, Option,
  none, some, List, [], ◌∷◌, arith, All, Result, ok, err, Promise, after, take, if◌then◌else◌,
}
use workflowhub.Auth.{JwtPayload}
use workflowhub.Auth.Guard
use workflowhub.Throttle
use workflowhub.Throttle.{ThrottleOptions, too_many}
use workflowhub.Throttle.Window
use workflowhub.Throttle.Window.{limit_request-Counts, can_activate_http}
use workflowhub.Metrics
use workflowhub.Metrics.Observed.{intercept_kept}
use workflowhub.Gateway.{register_saga, register, login, create_for, get_all_for, get_counter_for}
use workflowhub.Gateway.Server.{
  post_register_saga, get_root, get_health, saga_done, Nest, IsOrdered, Route, Answer, Call, Parts,
  World, context_of, throttler, set_user, jwt_guard, controller_guards, interceptors, histogram,
  on_services, for_user, handler_of, handle, handle_all, post_register, post_login, post_create,
  get_all_tasks, get_count, forbidden, registered, logged_in, created, found_tasks, counted,
}

module _ (P : Parts) where
  open P use {redis, metrics, clients, default_options, number}

  counters-on_services :
      {A : Type 0} (f : A → Answer) (r : Result A × clients.State) (w : World P)
      → (on_services P f r w).1.counters ≡ w.counters
  counters-on_services f (ok a, v) w = refl
  counters-on_services f (err e, v) w = refl

  counters-for_user :
      {A : Type 0} (f : A → Answer) (call : JwtPayload → Promise clients.State A)
      (user : Option JwtPayload) (w : World P)
      → (for_user P f call user w).1.counters ≡ w.counters
  counters-for_user f call none w = refl
  counters-for_user f call (some u) w = counters-on_services f (call u w.services) w

  -- The handlers do not touch the counters of the global guard.
  counters-handler_of : (r : Route) (w : World P) → (handler_of P r w).1.counters ≡ w.counters
  unfolding handler_of
  counters-handler_of (post_register body) w =
      counters-on_services registered (register number clients body w.services) w
  counters-handler_of (post_login body) w =
      counters-on_services logged_in (login number clients body w.services) w
  counters-handler_of (post_register_saga body) w =
      counters-on_services saga_done (register_saga number clients body w.services) w
  counters-handler_of get_root w = refl
  counters-handler_of get_health w = refl
  counters-handler_of (post_create header body) w =
      counters-for_user created (create_for number clients body) w.user w
  counters-handler_of (get_all_tasks header) w =
      counters-for_user found_tasks (get_all_for number clients) w.user w
  counters-handler_of (get_count header) w =
      counters-for_user counted (get_counter_for number clients) w.user w

  module _ (N : Nest) (O : IsOrdered N) (call : Call) where
    serve_handler_same : (handler : Promise (World P) Answer) → N.serve [] [] handler ≡ handler
    serve_handler_same handler = fun_ext (λ w. O.serve_handler handler w)

    abbrev inside : Route → Promise (World P) Answer
    inside r = N.serve [] (interceptors P call) (handler_of P r)

    counters-inside : (r : Route) (w : World P) → (inside r w).1.counters ≡ w.counters
    counters-inside r w =
        rw
          (O.serve_interceptor (Metrics.intercept (histogram P) call.observed) [] (handler_of P r)
            w)
          (rw (serve_handler_same (handler_of P r)) (
            intercept_kept (histogram P) (λ (v : World P). v.counters) (λ o v. refl) call.observed
              (handler_of P r) w
            ∙ counters-handler_of r w))

    abbrev past : Route → Promise (World P) Answer
    past r = N.serve (controller_guards P r) (interceptors P call) (handler_of P r)

    counters-set_user :
        (p : Result JwtPayload) (r : Route) (w : World P)
        → (after {R = Result Answer × World P}
            (set_user P p w)
            (λ b v. if b then inside r v else (err forbidden, v))
            (λ e v. (err e, v))).1.counters
          ≡ w.counters
    counters-set_user (ok u) r w = counters-inside r (record w { user = some u })
    counters-set_user (err e) r w = refl

    -- Nor do the guards of the controllers.
    counters-jwt_guard :
        (header : Option String) (r : Route) (w : World P)
        → (N.serve (jwt_guard P header ∷ []) (interceptors P call) (handler_of P r) w).1.counters
          ≡ w.counters
    counters-jwt_guard header r w =
        rw (O.serve_guard (jwt_guard P header) [] (interceptors P call) (handler_of P r) w)
          (counters-set_user (Guard.can_activate clients.verify header) r w)

    counters-past : (r : Route) (w : World P) → (past r w).1.counters ≡ w.counters
    counters-past (post_register body) w = counters-inside (post_register body) w
    counters-past (post_login body) w = counters-inside (post_login body) w
    counters-past (post_register_saga body) w = counters-inside (post_register_saga body) w
    counters-past get_root w = counters-inside get_root w
    counters-past get_health w = counters-inside get_health w
    counters-past (post_create header body) w =
        counters-jwt_guard header (post_create header body) w
    counters-past (get_all_tasks header) w = counters-jwt_guard header (get_all_tasks header) w
    counters-past (get_count header) w = counters-jwt_guard header (get_count header) w

-- What the services and the histogram have seen.
abbrev pub seen : (P : Parts) → World P → P.clients.State × P.metrics.State
seen P w = (w.services, w.observations)

-- The requests of one client to one route: over HTTP, under one key, with one limit.
abbrev pub IsOf : Parts → String → ThrottleOptions → Call → Type 0
IsOf P key o call =
    (call.context.is_http ≡ true)
    × (Throttle.redis_key (record call.context.request { user_id = none }) ≡ key)
    × (Throttle.options_of P.default_options call.context ≡ o)

module _ (P : Parts) (N : Nest) (O : IsOrdered N) (L : Throttle.IsLawful P.redis)
    (H : Window.IsHealthy P.redis) (key : String) (o : ThrottleOptions) where
  abbrev hits : World P → ℕ
  hits w = P.redis.hits w.counters key

  abbrev limited : World P → Result Bool × P.redis.State
  limited w = Throttle.limit_request P.redis key o w.counters

  abbrev counted_once : World P → World P
  counted_once w = record w { counters = (limited w).1; user = none }

  throttler_lem :
      (call : Call) (w : World P)
      → IsOf P key o call
      → throttler P call (record w { user = none }) ≡ ((limited w).0, counted_once w)
  throttler_lem call w (http, same_key, same_options) =
      let answer : Throttle.can_activate P.redis P.default_options
            (context_of P call (record w { user = none })) w.counters
          ≡ limited w =
        can_activate_http P.redis P.default_options (context_of P call (record w { user = none }))
          w.counters http
        ∙ ap₂ (λ k p. Throttle.limit_request P.redis k p w.counters) same_key same_options in
      ap (λ (r : Result Bool × P.redis.State). (r.0, record w { counters = r.1; user = none }))
        answer

  abbrev then_inside : Call → Result Bool × World P → Result Answer × World P
  then_inside call r =
      after r (λ b v. if b then past P N O call call.route v else (err forbidden, v))
        (λ e v. (err e, v))

  handle_lem :
      (call : Call) (w : World P)
      → IsOf P key o call
      → handle P N call w ≡ then_inside call ((limited w).0, counted_once w)
  unfolding handle
  handle_lem call w is =
      O.serve_guard (throttler P call) (controller_guards P call.route) (interceptors P call)
        (handler_of P call.route) (record w { user = none })
      ∙ ap (then_inside call) (throttler_lem call w is)

  -- A request over the limit is answered by 429, and nothing else happens.
  handle_over :
      (call : Call) (w : World P)
      → IsOf P key o call
      → o.limit ≤ hits w
      → handle P N call w ≡ (err too_many, counted_once w)
  handle_over call w is full =
      let (answer, _, _) = limit_request-Counts P.redis L key o H w.counters in
      let over : ltb o.limit (hits w + 1) ≡ true = ground arith in
      let refused : (limited w).0 ≡ err too_many = answer ∙ rw over refl in
      handle_lem call w is ∙ ap (λ a. then_inside call (a, counted_once w)) refused

  counters-then_inside :
      (call : Call) (b : Bool) (v : World P)
      → (then_inside call (if b then err too_many else ok true, v)).1.counters ≡ v.counters
  counters-then_inside call true v = refl
  counters-then_inside call false v = counters-past P N O call call.route v

  -- Every request is counted once.
  hits-handle :
      (call : Call) (w : World P) → IsOf P key o call → hits (handle P N call w).1 ≡ hits w + 1
  hits-handle call w is =
      let (answer, added, _) = limit_request-Counts P.redis L key o H w.counters in
      let over = ltb o.limit (hits w + 1) in
      ap (λ (r : Result Answer × World P). hits r.1)
        (handle_lem call w is ∙ ap (λ a. then_inside call (a, counted_once w)) answer)
      ∙ ap (λ c. P.redis.hits c key) (counters-then_inside call over (counted_once w))
      ∙ added

  seen-handle_all_over :
      (calls : List Call) (w : World P)
      → All (IsOf P key o) calls
      → o.limit ≤ hits w
      → seen P (handle_all P N calls w) ≡ seen P w
  unfolding handle_all
  seen-handle_all_over [] w is full = refl
  seen-handle_all_over (call ∷ calls) w (is, more) full =
      let again : o.limit ≤ hits (handle P N call w).1 = omega (arith, hits-handle call w is) in
      seen-handle_all_over calls (handle P N call w).1 more again
      ∙ ap (λ (r : Result Answer × World P). seen P r.1) (handle_over call w is full)

  seen-handle_all-take :
      (n : ℕ) (calls : List Call) (w : World P)
      → All (IsOf P key o) calls
      → hits w + n ≡ o.limit
      → seen P (handle_all P N calls w) ≡ seen P (handle_all P N (take n calls) w)
  unfolding handle_all take
  seen-handle_all-take zero calls w is left = seen-handle_all_over calls w is (omega arith)
  seen-handle_all-take (suc n) [] w is left = refl
  seen-handle_all-take (suc n) (call ∷ calls) w (is, more) left =
      seen-handle_all-take n calls (handle P N call w).1 more (omega (arith, hits-handle call w is))

  -- The services behind a route are safe from a client that sends too much: while Redis answers, and in
  -- one window, which starts without a counter, any sequence of requests of one client to one route,
  -- with whatever tokens and bodies, leaves the services and the histogram as its first requests up
  -- to the limit do.
  pub seen-handle_all :
      (calls : List Call) (w : World P)
      → All (IsOf P key o) calls
      → P.redis.hits w.counters key ≡ 0
      → seen P (handle_all P N calls w) ≡ seen P (handle_all P N (take o.limit calls) w)
  seen-handle_all calls w is new = seen-handle_all-take o.limit calls w is (omega arith)
