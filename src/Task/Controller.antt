-- ===== src/Task/Controller.antt =====
-- apps/task-service/src/task/task.controller.ts: the gRPC and message handlers of the task service.
use workflowhub.Prelude.{Bool, String, Promise, ◌>>=◌, pure}
use workflowhub.Task.{TaskBody}
use workflowhub.Task.Service.{
  Database, Created, Tasks, create, create_saga, delete_saga, find_all_by_user_id,
}

pub record TaskResponse : Type 0 where
  pub id : String
  pub title : String
  pub description : String
  pub user_id : String
  pub message : String

pub record DeleteResponse : Type 0 where
  pub success : Bool
  pub message : String

-- The answer to a creation, field by field.
abbrev pub to_response : Created → TaskResponse
to_response c = record {
  id = c.task.id;
  title = c.task.fields.title;
  description = c.task.fields.description;
  user_id = c.task.fields.user_id;
  message = c.message;
}

module _ (D : Database) where
  abbrev pub grpc_create_task : TaskBody → Promise D.State TaskResponse
  grpc_create_task body = do result ← create D body; pure (to_response result)

  -- The handler of `task.findAllByUserId`.
  abbrev pub find_all_handler : String → Promise D.State Tasks
  find_all_handler user_id = find_all_by_user_id D user_id

  abbrev pub grpc_create_saga : TaskBody → Promise D.State TaskResponse
  grpc_create_saga body = do result ← create_saga D body; pure (to_response result)

  abbrev pub grpc_delete_saga : String → Promise D.State DeleteResponse
  grpc_delete_saga task_id = do
    result ← delete_saga D task_id
    pure (record { success = result.success; message = result.message })
