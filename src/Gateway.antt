-- ===== src/Gateway.antt =====
-- The routes of the API gateway: apps/api-gateway/src/{auth,task,analytics}/*.controller.ts. Each
-- calls one service, through its client and circuit breaker, and maps an error to an HTTP status.
pub mod Routes
pub mod Server
use workflowhub.Prelude.{
  ℕ, String, Option, none, some, or_else, or_string, Error, Result, ok, err, Promise, after, throw,
}
use workflowhub.HttpStatus.{to_http_status}
use workflowhub.Saga.{http_exception, RegisterDto, Registered}
use workflowhub.Auth.{JwtPayload}
use workflowhub.Auth.Service.{RegisterBody, LoginBody, LoginResponse}
use workflowhub.Auth.Controller.{RegisterResponse}
use workflowhub.Auth.Guard.{can_activate}
use workflowhub.Task.{TaskBody}
use workflowhub.Task.Service.{Tasks}
use workflowhub.Task.Controller.{TaskResponse}
use workflowhub.Analytics.{UserCounterResponse}

-- The clients of the services, with their circuit breakers, the verification of a token, and the
-- service of the registration saga.
pub record Clients : Type 1 where
  pub State : Type 0
  pub verify : String → Result JwtPayload
  pub register : RegisterBody → Promise State RegisterResponse
  pub login : LoginBody → Promise State LoginResponse
  pub create_task : TaskBody → Promise State TaskResponse
  pub find_all_by_user_id : String → Promise State Tasks
  pub get_user_counter : String → Promise State UserCounterResponse
  pub register_saga : RegisterDto → Promise State Registered

-- The answers of `AppController`, which are constant.
abbrev pub get_hello : String
get_hello = "Hello World from app!"

pub record Health : Type 0 where
  pub status : String

abbrev pub health : Health
health = record { status = "ok" }

module _ (number : String → Option ℕ) (C : Clients) where
  -- `err.details || err.message || text`
  abbrev pub route_error : String → Error → Error
  route_error text e =
      http_exception (or_string (or_else e.details e.message) text) (to_http_status number e)

  abbrev pub catch_error : {A : Type 0} → (Error → Error) → Promise C.State A → Promise C.State A
  catch_error f m s = after (m s) (λ a w. (ok a, w)) (λ e w. (err (f e), w))

  -- A route under `JwtAuthGuard`, which reads the user that the guard has set.
  pub guarded : {A : Type 0} → Option String → (JwtPayload → Promise C.State A) → Promise C.State A
  guarded header route = elim (can_activate C.verify header) [
    | ok user ↦ route user
    | err e ↦ throw e
  ]

  abbrev pub register : RegisterBody → Promise C.State RegisterResponse
  register body = catch_error (route_error "Authentication failed") (C.register body)

  abbrev pub login : LoginBody → Promise C.State LoginResponse
  login body = catch_error (route_error "Authentication failed") (C.login body)

  -- The saga throws an HttpException of its own.
  abbrev pub register_saga : RegisterDto → Promise C.State Registered
  register_saga body = C.register_saga body

  -- The handlers of these routes, for the user in `req.user`.
  abbrev pub create_for : TaskBody → JwtPayload → Promise C.State TaskResponse
  create_for body user =
      catch_error (route_error "Task Creation failed")
        (C.create_task (record body { user_id = some user.id }))

  -- This handler does not read `err.details`.
  abbrev pub get_all_for : JwtPayload → Promise C.State Tasks
  get_all_for user =
      catch_error
        (λ e.
          http_exception (or_string e.message "Failed to fetch tasks") (to_http_status number e))
        (C.find_all_by_user_id user.id)

  abbrev pub get_counter_for : JwtPayload → Promise C.State UserCounterResponse
  get_counter_for user =
      catch_error (route_error "Failed to fetch analytics counter") (C.get_user_counter user.id)

  pub create : Option String → TaskBody → Promise C.State TaskResponse
  unfolding guarded
  create header body = guarded header (create_for body)

  pub get_all : Option String → Promise C.State Tasks
  unfolding guarded
  get_all header = guarded header get_all_for

  pub get_counter : Option String → Promise C.State UserCounterResponse
  unfolding guarded
  get_counter header = guarded header get_counter_for
