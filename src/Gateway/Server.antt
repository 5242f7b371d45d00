-- ===== src/Gateway/Server.antt =====
-- apps/api-gateway/src/api-gateway.module.ts and the decorators of the controllers: what a request
-- passes before its handler. NestJS, which runs the parts, is a parameter.
pub mod Limit
pub mod Creation
mod Tests
use workflowhub.Prelude.{
  ◌≡◌, ℕ, String, Bool, true, false, Option, none, some, List, [], ◌∷◌, ◌++◌, num, Error, Result,
  ok, err, Promise, after, new_error, if◌then◌else◌,
}
use workflowhub.Auth.{JwtPayload}
use workflowhub.Auth.Service.{RegisterBody, LoginBody, LoginResponse}
use workflowhub.Auth.Controller.{RegisterResponse}
use workflowhub.Auth.Guard
use workflowhub.Task.{TaskBody}
use workflowhub.Task.Service.{Tasks}
use workflowhub.Task.Controller.{TaskResponse}
use workflowhub.Analytics.{UserCounterResponse}
use workflowhub.Throttle
use workflowhub.Throttle.{ThrottleOptions, Redis}
use workflowhub.Metrics
use workflowhub.Saga.{RegisterDto, Registered}
use workflowhub.Gateway.{
  Health, get_hello, health, register_saga, Clients, register, login, create_for, get_all_for,
  get_counter_for,
}

-- NestJS: it runs guards, then interceptors around the handler.
pub record Nest : Type 1 where
  pub serve :
      {W A : Type 0}
      → List (Promise W Bool)
      → List (Promise W A → Promise W A)
      → Promise W A
      → Promise W A

-- `ForbiddenException`, which NestJS throws for a guard that answers false.
abbrev pub forbidden : Error
forbidden = record {
  name = some "ForbiddenException";
  message = some "Forbidden resource";
  details = none;
  code = none;
  status = some (num 403);
  status_code = none;
}

-- The documented order: every guard, one after another, until one refuses; then the interceptors, the
-- first one outermost; then the handler.
pub record IsOrdered (N : Nest) : Type 1 where
  pub serve_guard :
      {W A : Type 0} (g : Promise W Bool) (gs : List (Promise W Bool))
      (fs : List (Promise W A → Promise W A)) (handler : Promise W A) (w : W)
      → N.serve (g ∷ gs) fs handler w
        ≡ after
            (g w)
            (λ b v. if b then N.serve gs fs handler v else (err forbidden, v))
            (λ e v. (err e, v))
  pub serve_interceptor :
      {W A : Type 0} (f : Promise W A → Promise W A) (fs : List (Promise W A → Promise W A))
      (handler : Promise W A) (w : W)
      → N.serve [] (f ∷ fs) handler w ≡ f (N.serve [] fs handler) w
  pub serve_handler :
      {W A : Type 0} (handler : Promise W A) (w : W) → N.serve [] [] handler w ≡ handler w

-- The routes, with the header `authorization` where it is read, and with the body that the pipe has let
-- through (Dto.antt).
pub data Route : Type 0 where
  post_register : RegisterBody → Route
  post_login : LoginBody → Route
  post_register_saga : RegisterDto → Route
  post_create : Option String → TaskBody → Route
  get_all_tasks : Option String → Route
  get_count : Option String → Route
  get_root get_health : Route

pub data Answer : Type 0 where
  registered : RegisterResponse → Answer
  logged_in : LoginResponse → Answer
  created : TaskResponse → Answer
  found_tasks : Tasks → Answer
  counted : UserCounterResponse → Answer
  saga_done : Registered → Answer
  hello : String → Answer
  healthy : Health → Answer

-- A request, as the guard against too many requests and the interceptor of metrics see it. The user
-- in `context` is not read: `request.user` is in the state.
pub record Call : Type 0 where
  pub context : Throttle.Context
  pub observed : Option Metrics.Request
  pub route : Route

-- The options of `ConfigService`, and what the parts use.
pub record Parts : Type 1 where
  pub redis : Redis
  pub metrics : Metrics.World
  pub clients : Clients
  pub default_options : ThrottleOptions
  pub number : String → Option ℕ

module _ (P : Parts) where
  open P use {redis, metrics, clients, default_options, number}

  pub record World : Type 0 where
    pub counters : redis.State
    pub observations : metrics.State
    pub services : clients.State
    pub user : Option JwtPayload

  -- `request.user?.id`
  abbrev pub user_id : Option JwtPayload → Option String
  user_id none = none
  user_id (some u) = some u.id

  abbrev pub context_of : Call → World → Throttle.Context
  context_of call w = record call.context {
    request = record call.context.request { user_id = user_id w.user };
  }

  -- The global guard.
  abbrev pub throttler : Call → Promise World Bool
  throttler call w =
      let (answer, counters) =
        Throttle.can_activate redis default_options (context_of call w) w.counters in
      (answer, record w { counters = counters })

  -- `JwtAuthGuard`, which sets `request.user`.
  abbrev pub set_user : Result JwtPayload → Promise World Bool
  set_user (ok payload) w = (ok true, record w { user = some payload })
  set_user (err e) w = (err e, w)

  abbrev pub jwt_guard : Option String → Promise World Bool
  jwt_guard header = set_user (Guard.can_activate clients.verify header)

  -- `APP_GUARD`, and the guards of a controller.
  abbrev pub controller_guards : Route → List (Promise World Bool)
  controller_guards (post_register body) = []
  controller_guards (post_login body) = []
  controller_guards (post_register_saga body) = []
  controller_guards (post_create header body) = jwt_guard header ∷ []
  controller_guards (get_all_tasks header) = jwt_guard header ∷ []
  controller_guards (get_count header) = jwt_guard header ∷ []
  controller_guards get_root = []
  controller_guards get_health = []

  abbrev pub guards : Call → List (Promise World Bool)
  guards call = throttler call ∷ controller_guards call.route

  -- The histogram, in this state.
  abbrev pub histogram : Metrics.World
  histogram = record {
    State = World;
    now = λ w. metrics.now w.observations;
    status_code = λ w. metrics.status_code w.observations;
    observations = λ w. metrics.observations w.observations;
    observe = λ o w. record w { observations = metrics.observe o w.observations };
    observations-observe = λ o w. metrics.observations-observe o w.observations;
  }

  -- `APP_INTERCEPTOR`
  abbrev pub interceptors : Call → List (Promise World Answer → Promise World Answer)
  interceptors call = Metrics.intercept histogram call.observed ∷ []

  -- A handler's call of a service.
  abbrev pub on_services :
      {A : Type 0} → (A → Answer) → Result A × clients.State → World → Result Answer × World
  on_services f (ok a, services) w = (ok (f a), record w { services = services })
  on_services f (err e, services) w = (err e, record w { services = services })

  -- A handler that reads `req.user.id`, which fails where no guard has set the user.
  abbrev pub for_user :
      {A : Type 0}
      → (A → Answer)
      → (JwtPayload → Promise clients.State A)
      → Option JwtPayload
      → Promise World Answer
  for_user f call none w = (err (new_error "Cannot read properties of undefined (reading 'id')"), w)
  for_user f call (some user) w = on_services f (call user w.services) w

  pub handler_of : Route → Promise World Answer
  handler_of (post_register body) =
      λ w. on_services registered (register number clients body w.services) w
  handler_of (post_login body) = λ w. on_services logged_in (login number clients body w.services) w
  handler_of (post_register_saga body) =
      λ w. on_services saga_done (register_saga number clients body w.services) w
  handler_of (post_create header body) =
      λ w. for_user created (create_for number clients body) w.user w
  handler_of (get_all_tasks header) =
      λ w. for_user found_tasks (get_all_for number clients) w.user w
  handler_of (get_count header) = λ w. for_user counted (get_counter_for number clients) w.user w
  handler_of get_root = λ w. (ok (hello get_hello), w)
  handler_of get_health = λ w. (ok (healthy health), w)

  -- A request: it starts without a user.
  pub handle : Nest → Call → Promise World Answer
  unfolding handler_of
  handle N call w =
      N.serve (guards call) (interceptors call) (handler_of call.route) (record w { user = none })

  -- Requests, one after another.
  unfoldable pub handle_all : Nest → List Call → World → World
  unfolding handle
  handle_all N [] w = w
  handle_all N (call ∷ calls) w = handle_all N calls (handle N call w).1
