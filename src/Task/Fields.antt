-- ===== src/Task/Fields.antt =====
-- What the schema of tasks guarantees of a stored task.
use workflowhub.Prelude.{◌≡◌, true, some, truthy, arith}
use workflowhub.Task.{Task, TaskBody, task_document}

-- A task that the schema allows has the user of the request, and no empty title or user.
pub task_document-some :
    (b : TaskBody) (t : Task)
    → task_document b ≡ some t
    → (b.user_id ≡ some t.user_id) × (truthy t.title ≡ true) × (truthy t.user_id ≡ true)
unfolding task_document
task_document-some b t h = ground arith
