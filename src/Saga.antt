-- ===== src/Saga.antt =====
-- apps/api-gateway/src/auth/registration-saga.service.ts: the registration of a user as a saga over
-- three services, with compensations in reverse order.
pub mod Compensation
pub mod Tasks
pub mod Joined
mod Tests
use workflowhub.Prelude.{
  ◌≡◌, ℕ, String, ◌<>◌, Option, none, some, List, [], ◌∷◌, ◌++◌, reverse, Document, without, lookup,
  Scalar, num, Error, Result, ok, err, Promise, ◌>>=◌, ◌>>◌, pure, throw, after, new_error,
  truthy_value, or_string,
}
use workflowhub.HttpStatus.{to_http_status}

pub record RegisterDto : Type 0 where
  pub name : String
  pub email : String
  pub password : String

pub record UserData : Type 0 where
  pub id : Option String
  pub name : String
  pub email : String

pub record AuthResponse : Type 0 where
  pub user : Option UserData
  pub token : String

pub record WelcomeTask : Type 0 where
  pub title : String
  pub description : String
  pub user_id : String

pub record WelcomeNotification : Type 0 where
  pub user_id : String
  pub task_id : String
  pub title : String
  pub message : String
  pub type : String

-- The services behind the gateway, their clients and circuit breakers included. The answers are
-- reduced to what the saga reads: identifiers may be missing. `users` and `tasks` are the
-- collections of the auth service and of the task service.
pub record Services : Type 1 where
  pub State : Type 0
  pub User : Type 0
  pub Task : Type 0
  pub users : State → List (Document User)
  pub tasks : State → List (Document Task)
  pub register : RegisterDto → Promise State AuthResponse
  pub delete_user : String → Promise State (Unit {0})
  pub create_saga : WelcomeTask → Promise State (Option String)
  pub delete_saga : String → Promise State (Unit {0})
  pub send_saga : WelcomeNotification → Promise State (Option String)
  pub delete_notification : Option String → Promise State (Unit {0})

-- A rollback action, with what its closure captures.
pub data Rollback : Type 0 where
  delete_user : String → Rollback
  delete_task : String → Rollback
  delete_notification : Option String → Rollback

pub record Registered : Type 0 where
  pub message : String
  pub user : UserData
  pub token : String

abbrev pub welcome_task : UserData → String → WelcomeTask
welcome_task user user_id = record {
  title = "Welcome to WorkflowHub";
  description =
      "Welcome " <> user.name
      <> " to WorkflowHub. To get started, please complete the following steps";
  user_id = user_id;
}

abbrev pub welcome_notification : UserData → String → String → WelcomeNotification
welcome_notification user user_id task_id = record {
  user_id = user_id;
  task_id = task_id;
  title = "Welcome to WorkflowHub!";
  message = "Hello " <> user.name <> ", your account is ready.";
  type = "EMAIL";
}

abbrev pub registered : UserData → String → Registered
registered user token = record {
  message = "Registration workflow completed successfully";
  user = user;
  token = token;
}

-- `new HttpException(message, status)`
abbrev pub http_exception : String → ℕ → Error
http_exception message status = record {
  name = some "HttpException";
  message = some message;
  details = none;
  code = none;
  status = some (num status);
  status_code = none;
}

module _ (S : Services) (number : String → Option ℕ) where
  abbrev pub perform : Rollback → Promise S.State (Unit {0})
  perform (delete_user i) = S.delete_user i
  perform (delete_task i) = S.delete_saga i
  perform (delete_notification i) = S.delete_notification i

  -- The loop of `rollback`, over the actions from the last to the first; an error is only logged.
  pub undo_all : List Rollback → S.State → S.State
  undo_all [] s = s
  undo_all (a ∷ rest) s = undo_all rest (perform a s).1

  pub rollback : List Rollback → S.State → S.State
  unfolding undo_all
  rollback actions s = undo_all (reverse actions) s

  -- The `catch` block, with the actions registered so far.
  pub fail : List Rollback → Error → Promise S.State Registered
  unfolding rollback
  fail actions e s = (
    err (http_exception (or_string e.message "User Registration failed") (to_http_status number e)),
    rollback actions s,
  )

  -- Step 3 and the answer. The third action is registered after the last call that can fail.
  pub notify : List Rollback → UserData → String → String → String → Promise S.State Registered
  unfolding fail
  notify actions user token user_id task_id s =
      after (S.send_saga (welcome_notification user user_id task_id) s)
        (λ notification_id. pure (registered user token)) (fail actions)

  -- Step 2.
  pub create_welcome : List Rollback → UserData → String → String → Promise S.State Registered
  unfolding fail notify
  create_welcome actions user token user_id s =
      after (S.create_saga (welcome_task user user_id) s)
        (λ answer. elim (truthy_value answer) [
          | none ↦ fail actions (new_error "Task creation failed: No taskId returned")
          | some task_id ↦ notify (actions ++ delete_task task_id ∷ []) user token user_id task_id
        ])
        (fail actions)

  -- Step 1 and what follows.
  unfoldable pub execute_registration_saga : RegisterDto → Promise S.State Registered
  unfolding fail create_welcome
  execute_registration_saga dto s =
      after (S.register dto s)
        (λ answer. elim answer.user [
          | none ↦ fail [] (new_error "User creation succeeded but no userId was returned.")
          | some user ↦ elim (truthy_value user.id) [
            | none ↦ fail [] (new_error "User creation succeeded but no userId was returned.")
            | some user_id ↦ create_welcome (delete_user user_id ∷ []) user answer.token user_id
          ]
        ])
        (fail [])
