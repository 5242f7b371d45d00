-- ===== src/Events/Tests.antt =====
-- The event of one task.
use workflowhub.Prelude.{◌≡◌, refl, some, Document}
use workflowhub.Task.{Task, TaskBody, task_document}
use workflowhub.Task.Service.{task_created}
use workflowhub.Analytics.{ids}
use workflowhub.Notification.{notification_document}
use workflowhub.Events.{event_data, notification_data, notification_of, consumers-task_created}

abbrev body : TaskBody
body = record { title = some "Report"; description = some "Monthly"; user_id = some "u1" }

abbrev task : Document Task
task = record {
  id = "t1";
  fields = record { title = "Report"; description = "Monthly"; user_id = "u1" };
}

consumers-task_created_example :
    (ids (event_data (task_created body task 0).payload) ≡ some ("u1", "t1"))
    × (notification_document (notification_data (task_created body task 0).payload)
        ≡ some (notification_of task))
unfolding task_document
consumers-task_created_example = consumers-task_created body task 0 refl refl
