-- ===== src/Gateway/Server/Creation.antt =====
-- `POST /task/create` over the task service itself: apps/api-gateway/src and apps/task-service/src together.
use workflowhub.Prelude.{
  ◌≡◌, refl, sym, ap, subst₂, fun_ext, ◌⊎◌, inl, inr, ℕ, String, Bool, true, false, Option, none,
  some, [], ◌∷◌, Document, Error, Result, ok, err, after, if◌then◌else◌,
}
use workflowhub.Auth.{JwtPayload}
use workflowhub.Auth.Guard
use workflowhub.Task.{Task, TaskBody}
use workflowhub.Task.Fields.{task_document-some}
use workflowhub.Task.Service
use workflowhub.Task.Service.{Database, Created, Tasks}
use workflowhub.Task.Service.Atomic.{Unchanged, Stored, Post, create-AllOrNothing}
use workflowhub.Task.Controller.{TaskResponse, to_response, grpc_create_task, find_all_handler}
use workflowhub.Throttle
use workflowhub.Throttle.{ThrottleOptions, Redis}
use workflowhub.Metrics
use workflowhub.Metrics.Observed.{intercept_kept, intercept_same}
use workflowhub.Gateway.{Clients, route_error}
use workflowhub.Gateway.Server.{
  Nest, IsOrdered, Route, Answer, Call, Parts, World, throttler, context_of, set_user, jwt_guard,
  interceptors, histogram, on_services, handler_of, handle, post_create, created, forbidden,
}

-- The clients of the gateway, with that of the task service put in: it passes a call on, and `wire` is
-- what it makes of an error.
module _ (C : Clients) (D : Database) (wire : Error → Error) where
  pub record Behind : Type 0 where
    pub tasks : D.State
    pub others : C.State

  abbrev on_others : {A : Type 0} → Result A × C.State → Behind → Result A × Behind
  on_others r s = (r.0, record s { others = r.1 })

  abbrev on_tasks : {A : Type 0} → Result A × D.State → Behind → Result A × Behind
  on_tasks (ok a, v) s = (ok a, record s { tasks = v })
  on_tasks (err e, v) s = (err (wire e), record s { tasks = v })

  abbrev pub joined : Clients
  joined = record {
    State = Behind;
    verify = C.verify;
    register = λ body s. on_others (C.register body s.others) s;
    login = λ body s. on_others (C.login body s.others) s;
    create_task = λ body s. on_tasks (grpc_create_task D body s.tasks) s;
    find_all_by_user_id = λ user s. on_tasks (find_all_handler D user s.tasks) s;
    get_user_counter = λ user s. on_others (C.get_user_counter user s.others) s;
    register_saga = λ body s. on_others (C.register_saga body s.others) s;
  }

module _ (C : Clients) (D : Database) (L : Service.IsLawful D) (wire : Error → Error) (R : Redis)
    (M : Metrics.World) (default_options : ThrottleOptions) (number : String → Option ℕ) where
  abbrev pub parts : Parts
  parts = record {
    redis = R;
    metrics = M;
    clients = joined C D wire;
    default_options = default_options;
    number = number;
  }

  abbrev pub tasks_of : World parts → D.State
  tasks_of w = w.services.tasks

  module _ (header : Option String) (body : TaskBody) where
    -- `{ ...body, userId: req.user.id }`
    abbrev pub body_as : JwtPayload → TaskBody
    body_as user = record body { user_id = some user.id }

    abbrev pub Known : JwtPayload → Type 0
    Known user = Guard.can_activate C.verify header ≡ ok user

    -- What an answer, and what an error, means for the database.
    abbrev pub Outcome : D.State → Result Answer → D.State → Type 0
    Outcome s (ok answer) v =
        (user : JwtPayload) × Known user
        × ((t : Stored D (body_as user) s v) × (r : TaskResponse) × (answer ≡ created r)
            × (r.id ≡ t.task.id)
            × (t.task.fields.user_id ≡ user.id))
    Outcome s (err e) v =
        Unchanged D body s v ⊎ ((user : JwtPayload) × Known user × Stored D (body_as user) s v)

    stored_user :
        (user : JwtPayload) (s v : D.State) (t : Stored D (body_as user) s v)
        → t.task.fields.user_id ≡ user.id
    stored_user user s v t =
        let (same, _, _) = task_document-some (body_as user) t.task.fields t.fields in cc

    -- What becomes of the answer of the task service on its way back.
    abbrev passed : Result Created × D.State → World parts → Result Answer × World parts
    passed r w =
        let reply = after r (λ c v. (ok (to_response c), v)) (λ e v. (err e, v)) in
        on_services parts created
          (after (on_tasks C D wire reply w.services) (λ a v. (ok a, v))
            (λ e v. (err (route_error number (joined C D wire) "Task Creation failed" e), v)))
          w

    passed-Outcome :
        (user : JwtPayload) (s : D.State) (w : World parts) (r : Result Created × D.State)
        → Known user
        → Post D L (body_as user) s r
        → Outcome s (passed r w).0 (tasks_of (passed r w).1)
    passed-Outcome user s w (ok c, v) known (t, same) = (
      user,
      known,
      (t, to_response c, refl, ap (λ (d : Document Task). d.id) (sym same), stored_user user s v t),
    )
    passed-Outcome user s w (err e, v) known (inl kept) = inl kept
    passed-Outcome user s w (err e, v) known (inr t) = inr (user, known, t)

    abbrev route : Route
    route = post_create header body

    abbrev Served : D.State → Result Answer × World parts → Type 0
    Served s r = Outcome s r.0 (tasks_of r.1)

    handler-Outcome :
        (user : JwtPayload) (w : World parts)
        → Known user
        → Served (tasks_of w) (handler_of parts route (record w { user = some user }))
    unfolding handler_of
    handler-Outcome user w known =
        passed-Outcome user (tasks_of w) (record w { user = some user })
          (Service.create D (body_as user) (tasks_of w)) known
          (create-AllOrNothing D L (body_as user) (tasks_of w))

    module _ (N : Nest) (O : IsOrdered N) (call : Call) where
      inside-Outcome :
          (user : JwtPayload) (w : World parts)
          → Known user
          → Served (tasks_of w) (
              N.serve []
                (interceptors parts call)
                (handler_of parts route)
                (record w { user = some user }))
      inside-Outcome user w known =
          let handler = handler_of parts route in
          let M' = histogram parts in
          let v = record w { user = some user } in
          let bare : N.serve [] [] handler ≡ handler = fun_ext (λ x. O.serve_handler handler x) in
          rw (O.serve_interceptor (Metrics.intercept M' call.observed) [] handler v, bare)
            (subst₂ (Outcome (tasks_of w)) (sym (intercept_same M' call.observed handler v))
              (sym (intercept_kept M' tasks_of (λ o x. refl) call.observed handler v))
              (handler-Outcome user w known))

      -- After the guard of the controller.
      guarded-Outcome :
          (w : World parts) (p : Result JwtPayload)
          → Guard.can_activate C.verify header ≡ p
          → Served (tasks_of w) (
              after {R = Result Answer × World parts}
                (set_user parts p w)
                (λ b v.
                  if b
                  then N.serve [] (interceptors parts call) (handler_of parts route) v
                  else (err forbidden, v))
                (λ e v. (err e, v)))
      guarded-Outcome w (ok user) known = inside-Outcome user w known
      guarded-Outcome w (err e) refused = inl (refl, refl)

      past-Outcome :
          (w : World parts)
          → Served (tasks_of w) (
              N.serve
                (jwt_guard parts header ∷ [])
                (interceptors parts call)
                (handler_of parts route)
                w)
      past-Outcome w =
          rw
            (O.serve_guard (jwt_guard parts header) [] (interceptors parts call)
              (handler_of parts route) w)
            (guarded-Outcome w (Guard.can_activate C.verify header) refl)

      -- After the global guard, which only changes the counters.
      throttled-Outcome :
          (w : World parts) (r : Result Bool × R.State)
          → Served (tasks_of w) (
              after {R = Result Answer × World parts}
                (r.0, record w { counters = r.1 })
                (λ b v.
                  if b
                  then N.serve
                      (jwt_guard parts header ∷ [])
                      (interceptors parts call)
                      (handler_of parts route)
                      v
                  else (err forbidden, v))
                (λ e v. (err e, v)))
      throttled-Outcome w (ok true, c) = past-Outcome (record w { counters = c })
      throttled-Outcome w (ok false, c) = inl (refl, refl)
      throttled-Outcome w (err e, c) = inl (refl, refl)

  -- The route that creates tasks, from the guards of the gateway to the database of the task service,
  -- whatever the counters, the clock and the calls of the database answer: an answer is given only to
  -- the owner of a token that the guard accepts, and then exactly one task is appended, which belongs
  -- to the user of the token and has the identifier of the answer, and with it one row of the outbox. An
  -- error has left both collections as they were, or has appended both for the user of an accepted
  -- token.
  pub handle-Outcome :
      (N : Nest) (call : Call) (header : Option String) (body : TaskBody) (w : World parts)
      → IsOrdered N
      → call.route ≡ post_create header body
      → (let r = handle parts N call w in Outcome header body (tasks_of w) r.0 (tasks_of r.1))
  unfolding handle
  handle-Outcome N call header body w O is =
      let start = record w { user = none } in
      rw
        (
          is,
          O.serve_guard (throttler parts call) (jwt_guard parts header ∷ [])
              (interceptors parts call) (handler_of parts (post_create header body)) start,
        )
        (throttled-Outcome header body N O call start
          (Throttle.can_activate R default_options (context_of parts call start) start.counters))
