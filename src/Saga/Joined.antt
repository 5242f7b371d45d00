-- ===== src/Saga/Joined.antt =====
-- The saga over the auth service, the task service and the notification service themselves: what their
-- code adds up to, where the clients pass every call on.
pub mod Users
pub mod Tasks
pub mod AllOrNothing
mod Tests
use workflowhub.Prelude.{
  ◌≡◌, refl, ℕ, String, Option, none, some, List, Error, Result, ok, err, Promise, ◌>>=◌, pure,
  after,
}
use workflowhub.Auth.Service
use workflowhub.Auth.{Auth}
use workflowhub.Auth.Controller.{RegisterResponse, grpc_register, grpc_delete_user}
use workflowhub.Task.{Task, TaskBody}
use workflowhub.Task.Service.{Database}
use workflowhub.Task.Controller.{grpc_create_saga, grpc_delete_saga}
use workflowhub.Notification
use workflowhub.Notification.{NotificationData, Deletion}
use workflowhub.Saga.{Services, RegisterDto, AuthResponse, WelcomeTask, WelcomeNotification}

-- The requests, as the services read them.
abbrev pub body_of : RegisterDto → Service.RegisterBody
body_of dto = record { name = dto.name; email = dto.email; password = dto.password }

abbrev pub task_body : WelcomeTask → TaskBody
task_body t = record {
  title = some t.title;
  description = some t.description;
  user_id = some t.user_id;
}

abbrev pub notice : WelcomeNotification → NotificationData
notice n = record {
  task_id = some n.task_id;
  event_id = none;
  user_id = some n.user_id;
  title = some n.title;
  message = some n.message;
  type = some n.type;
}

-- What the saga reads of an answer of the auth service.
abbrev pub answer_of : RegisterResponse → AuthResponse
answer_of r = record {
  user = some (record { id = some r.user.id; name = r.user.name; email = r.user.email });
  token = r.token;
}

-- An answer as the client gives it: a value is read, and an error is carried over.
abbrev pub carried : {W A B : Type 0} → (Error → Error) → (A → B) → Result A × W → Result B × W
carried wire read r = after r (λ a w. (ok (read a), w)) (λ e w. (err (wire e), w))

-- The three services with their databases. `wire` is what the clients make of an error, and
-- `delete_undefined` what the notification service does for a message without an identifier.
module _ (A : Service.Backend) (D : Database) (N : Notification.Backend) (wire : Error → Error)
    (delete_undefined : Promise N.State Deletion) where
  pub record World : Type 0 where
    pub auth : A.State
    pub tasks : D.State
    pub notices : N.State

  -- A call of one of the services.
  abbrev on_auth : {X : Type 0} → Result X × A.State → World → Result X × World
  on_auth r s = (r.0, record s { auth = r.1 })

  abbrev on_tasks : {X : Type 0} → Result X × D.State → World → Result X × World
  on_tasks r s = (r.0, record s { tasks = r.1 })

  abbrev on_notices : {X : Type 0} → Result X × N.State → World → Result X × World
  on_notices r s = (r.0, record s { notices = r.1 })

  abbrev delete_notice : Option String → Promise N.State Deletion
  delete_notice none = delete_undefined
  delete_notice (some i) = Notification.delete_saga N i

  abbrev pub joined : Services
  joined = record {
    State = World;
    User = Auth;
    Task = Task;
    users = λ s. A.users s.auth;
    tasks = λ s. D.tasks s.tasks;
    register = λ dto s. on_auth (carried wire answer_of (grpc_register A (body_of dto) s.auth)) s;
    delete_user = λ i s. on_auth (carried wire (λ _. tt) (grpc_delete_user A i s.auth)) s;
    create_saga = λ t s.
        on_tasks (carried wire (λ r. some r.id) (grpc_create_saga D (task_body t) s.tasks)) s;
    delete_saga = λ i s. on_tasks (carried wire (λ _. tt) (grpc_delete_saga D i s.tasks)) s;
    send_saga = λ n s.
        on_notices
          (carried wire (λ r. some r.notification.id)
            (Notification.send_saga N (notice n) s.notices))
          s;
    delete_notification = λ i s. on_notices (carried wire (λ _. tt) (delete_notice i s.notices)) s;
  }
