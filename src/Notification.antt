-- ===== src/Notification.antt =====
-- apps/notification-service/src/notification-service.{controller,service}.ts and
-- schema/create-notification.schema.ts: notifications of new tasks, from Kafka, and those of the
-- registration saga.
pub mod Repeated
pub mod Saga
pub mod Retried
mod Tests
use workflowhub.Prelude.{
  ◌≡◌, ℕ, String, ◌<>◌, Bool, true, false, not, Option, some, none, List, ◌==◌, Document, num,
  Error, Result, ok, err, Promise, ◌>>=◌, ◌>>◌, pure, throw, try_catch, after, or_else, or_string,
  truthy_value, new_error, if◌then◌else◌,
}

pub data NotificationType : Type 0 where
  email push in_app : NotificationType

pub record Notification : Type 0 where
  pub user_id : String
  pub task_id : String
  pub title : String
  pub message : String
  pub type : NotificationType
  pub is_read : Bool

-- What arrives from Kafka or from the saga: any field may be missing.
pub record NotificationData : Type 0 where
  pub task_id : Option String
  pub event_id : Option String
  pub user_id : Option String
  pub title : Option String
  pub message : Option String
  pub type : Option String

-- The `enum` of the schema and its default.
abbrev pub type_of : Option String → Option NotificationType
type_of none = some in_app
type_of (some t) =
    if t == "EMAIL"
    then some email
    else if t == "PUSH"
    then some push
    else if t == "IN_APP"
    then some in_app
    else none

-- The document that the schema makes of the data, unless a required field is missing or empty, or
-- the type is none of the enum.
unfoldable pub notification_document : NotificationData → Option Notification
notification_document d = elim (truthy_value d.user_id) [
  | none ↦ none
  | some user_id ↦ elim (truthy_value d.task_id) [
    | none ↦ none
    | some task_id ↦ elim (truthy_value d.title) [
      | none ↦ none
      | some title ↦ elim (truthy_value d.message) [
        | none ↦ none
        | some message ↦ elim (type_of d.type) [
          | none ↦ none
          | some type ↦ some (record {
            user_id = user_id;
            task_id = task_id;
            title = title;
            message = message;
            type = type;
            is_read = false;
          })
        ]
      ]
    ]
  ]
]

-- Redis and the collection of notifications. `create` is given none where the validation fails.
pub record Backend : Type 1 where
  pub State : Type 0
  pub processed : State → String → Bool
  pub notifications : State → List (Document Notification)
  pub set_nx : String → ℕ → Promise State Bool
  pub del : String → Promise State (Unit {0})
  pub create : Option Notification → Promise State (Option (Document Notification))
  pub find_by_id_and_delete : String → Promise State (Option (Document Notification))

-- 24 hours, in seconds.
abbrev pub key_ttl : ℕ
key_ttl = 86400

-- The key of an event. A template writes a missing value as `undefined`.
unfoldable pub event_key : NotificationData → String
event_key d = "event:" <> (elim (or_else d.task_id d.event_id) [ none ↦ "undefined" | some i ↦ i ])

pub record Sent : Type 0 where
  pub message : String
  pub notification : Document Notification

pub record Deletion : Type 0 where
  pub success : Bool
  pub message : String

-- `new RpcException({ statusCode, message: error.message || text })`
abbrev pub rpc_error : ℕ → String → Error → Error
rpc_error n text e = record {
  name = some "RpcException";
  message = some (or_string e.message text);
  details = none;
  code = none;
  status = none;
  status_code = some (num n);
}

module _ (B : Backend) where
  -- `handleTaskCreated` of the service
  pub notify_task_created : NotificationData → Promise B.State (Option (Document Notification))
  notify_task_created d = B.create (notification_document d)

  pub create_notification : NotificationData → Promise B.State (Document Notification)
  create_notification d = do
    result ← B.create (notification_document d)
    elim result [
      | none ↦ throw (new_error "Notification creation failed in Saga")
      | some notification ↦ pure notification
    ]

  -- `deleteNotification` of the service
  pub delete_notification : String → Promise B.State Deletion
  delete_notification notification_id = do
    result ← B.find_by_id_and_delete notification_id
    elim result [
      | none ↦ throw (new_error ("Notification with ID " <> notification_id <> " not found"))
      | some notification ↦
          pure (record { success = true; message = "Notification deleted successfully" })
    ]

  -- The work under the key, which a failure gives back.
  pub process : String → NotificationData → Promise B.State (Unit {0})
  unfolding notify_task_created
  process key d =
      try_catch (notify_task_created d >>= λ _. pure tt) (λ error. B.del key >> throw error)

  pub handle_task_created : NotificationData → Promise B.State (Unit {0})
  unfolding process
  handle_task_created d = do
    result ← B.set_nx (event_key d) key_ttl
    if result then process (event_key d) d else pure tt

  pub send_saga : NotificationData → Promise B.State Sent
  unfolding create_notification
  send_saga d =
      try_catch
        (do
          notification ← create_notification d
          pure (record {
            message = "Notification sent successfully via Saga";
            notification = notification;
          }))
        (λ error. throw (rpc_error 500 "Notification creation failed in Saga" error))

  -- The handler `deleteNotification` of the controller.
  pub delete_saga : String → Promise B.State Deletion
  unfolding delete_notification
  delete_saga notification_id =
      try_catch (delete_notification notification_id)
        (λ error. throw (rpc_error 404 "Notification deletion failed" error))

-- What the handler relies on, within the 24 hours for which a key lives.
pub record IsLawful (B : Backend) : Type 0 where
  pub set_nx_ok :
      (k : String) (ttl : ℕ) (s : B.State) (b : Bool)
      → (B.set_nx k ttl s).0 ≡ ok b
      → (b ≡ not (B.processed s k)) × (B.processed (B.set_nx k ttl s).1 k ≡ true)
  pub notifications-set_nx :
      (k : String) (ttl : ℕ) (s : B.State)
      → B.notifications (B.set_nx k ttl s).1 ≡ B.notifications s
  pub processed-create :
      (n : Option Notification) (s : B.State) (k : String)
      → B.processed (B.create n s).1 k ≡ B.processed s k
