-- ===== src/Events.antt =====
-- The event `task.created`, from the outbox row that apps/task-service/src/task/task.service.ts writes
-- to the consumers of apps/analytics-service and apps/notification-service.
mod Tests
use workflowhub.Prelude.{
  ◌≡◌, refl, ◌∙◌, ap, sym, ℕ, String, Bool, true, false, Option, none, some, truthy, truthy_value,
  or_else, Document, Option-cases, Bool-cases, inl, inr, arith, if◌then◌else◌,
}
use workflowhub.Outbox.{TaskCreated, Outbox}
use workflowhub.Task.{Task, TaskBody, required, task_document}
use workflowhub.Task.Fields.{task_document-some}
use workflowhub.Task.Service.{task_created}
use workflowhub.Analytics.{EventData, ids}
use workflowhub.Notification.{
  NotificationData, Notification, NotificationType, type_of, email, notification_document,
}

-- What the consumers read of a payload: it has no `eventId`.
abbrev pub event_data : TaskCreated → EventData
event_data p = record { task_id = some p.task_id; event_id = none; user_id = some p.user_id }

abbrev pub notification_data : TaskCreated → NotificationData
notification_data p = record {
  task_id = some p.task_id;
  event_id = none;
  user_id = some p.user_id;
  title = some p.title;
  message = some p.message;
  type = some p.type;
}

abbrev pub notification_of : Document Task → Notification
notification_of task = record {
  user_id = task.fields.user_id;
  task_id = task.id;
  title = task.fields.title;
  message = "Task Created Successfully";
  type = email;
  is_read = false;
}

pub ids-some :
    (u k : String)
    → truthy u ≡ true
    → truthy k ≡ true
    → ids (record { task_id = some k; event_id = none; user_id = some u }) ≡ some (u, k)
unfolding ids
ids-some u k p q = ground arith

notification_document-some :
    (p : TaskCreated) (t : NotificationType)
    → truthy p.user_id ≡ true
    → truthy p.task_id ≡ true
    → truthy p.title ≡ true
    → truthy p.message ≡ true
    → type_of (some p.type) ≡ some t
    → notification_document (notification_data p)
      ≡ some (record {
        user_id = p.user_id;
        task_id = p.task_id;
        title = p.title;
        message = p.message;
        type = t;
        is_read = false;
      })
unfolding notification_document
notification_document-some p t a b c d e = ground arith

-- Whatever the task service accepts, both consumers accept: the event of a task that the schema of tasks
-- has allowed, with the identifier that the database gave it, is counted by the analytics
-- service for the task's user under the task's identifier, and passes the schema of
-- notifications as a message to that user about that task.
pub consumers-task_created :
    (body : TaskBody) (task : Document Task) (now : ℕ)
    → task_document body ≡ some task.fields
    → truthy task.id ≡ true
    → (ids (event_data (task_created body task now).payload) ≡ some (task.fields.user_id, task.id))
      × (notification_document (notification_data (task_created body task now).payload)
          ≡ some (notification_of task))
consumers-task_created body task now h i =
    let (user, title, named) = task_document-some body task.fields h in
    rw user (
      ids-some task.fields.user_id task.id named i,
      notification_document-some
          (record (task_created body task now).payload { user_id = task.fields.user_id }) email
          named i title refl refl,
    )
