-- ===== src/Task/Service.antt =====
-- apps/task-service/src/task/task.service.ts: the task service over MongoDB, with the transaction
-- that writes a task and its outbox row together.
pub mod Atomic
pub mod Saga
pub mod Tests
use workflowhub.Prelude.{
  ◌≡◌, ◌⊎◌, ℕ, String, ◌<>◌, Bool, true, Option, some, none, List, [], ◌∷◌, ◌++◌, Document, lookup,
  without, Error, Result, ok, err, Promise, ◌>>=◌, ◌>>◌, pure, throw, try_catch, finally, after,
  rpc_exception, or_string, ◌==◌,
}
use workflowhub.Outbox.{Outbox, TaskCreated, pending}
use workflowhub.Task.{Task, TaskBody, task_document}

-- libs/shared/src/kafka/kafka.constants.ts, `KAFKA_TOPICS.TASK_CREATED`
abbrev pub task_created_topic : String
task_created_topic = "task.created"

-- The connection to MongoDB. `tasks` and `outbox` are the committed collections, `staged_tasks` and
-- `staged_outbox` what a session has written and not committed. A creation takes the document
-- that the schema allows, or `none` where the validation fails.
pub record Database : Type 1 where
  pub State : Type 0
  pub Session : Type 0
  pub tasks : State → List (Document Task)
  pub outbox : State → List (Document Outbox)
  pub staged_tasks : Session → State → List (Document Task)
  pub staged_outbox : Session → State → List (Document Outbox)
  pub now : State → ℕ
  pub start_session : Promise State Session
  pub create_task_in : Session → Option Task → Promise State (Document Task)
  pub create_outbox_in : Session → Outbox → Promise State (Document Outbox)
  pub commit_transaction : Session → Promise State (Unit {0})
  pub abort_transaction : Session → Promise State (Unit {0})
  pub end_session : Session → Promise State (Unit {0})
  pub find_tasks : String → Promise State (List (Document Task))
  pub create_task : Option Task → Promise State (Option (Document Task))
  pub find_task_by_id_and_delete : String → Promise State (Option (Document Task))

-- `body.userId` in the payload: an absent field is left out, and is read back as empty.
abbrev pub text_of : Option String → String
text_of none = ""
text_of (some s) = s

-- The outbox row of a task.
abbrev pub task_created : TaskBody → Document Task → ℕ → Outbox
task_created body task now = record {
  pattern = task_created_topic;
  payload = record {
    user_id = text_of body.user_id;
    task_id = task.id;
    title = task.fields.title;
    message = "Task Created Successfully";
    type = "EMAIL";
  };
  status = pending;
  attempts = 0;
  error = none;
  processed_at = none;
  created_at = now;
}

pub record Created : Type 0 where
  pub message : String
  pub task : Document Task

pub record Deleted : Type 0 where
  pub success : Bool
  pub message : String

pub record Tasks : Type 0 where
  pub message : String
  pub tasks : List (Document Task)

-- `error.message` in a template: a missing one reads "undefined".
abbrev pub message_text : Error → String
message_text e = elim e.message [ none ↦ "undefined" | some m ↦ m ]

module _ (D : Database) where
  -- The body of the `try` block.
  pub write_both : TaskBody → D.Session → Promise D.State Created
  write_both body session = do
    task ← D.create_task_in session (task_document body)
    outbox_row ← λ s. D.create_outbox_in session (task_created body task (D.now s)) s
    D.commit_transaction session
    pure (record { message = "Task created successfully"; task = task })

  -- The `catch` block.
  pub roll_back : D.Session → Error → Promise D.State Created
  roll_back session error = do
    D.abort_transaction session
    throw (rpc_exception 400 ("Task creation transaction failed: " <> message_text error))

  pub create : TaskBody → Promise D.State Created
  unfolding write_both roll_back
  create body = do
    session ← D.start_session
    finally (try_catch (write_both body session) (roll_back session)) (D.end_session session)

  abbrev pub find_all_by_user_id : String → Promise D.State Tasks
  find_all_by_user_id user_id = do
    tasks ← D.find_tasks user_id
    pure (record { message = "Tasks fetched successfully"; tasks = tasks })

  -- The test `!task` of `createSaga` and what follows it.
  abbrev pub answer_saga : Option (Document Task) → Promise D.State Created
  answer_saga none = throw (rpc_exception 400 "Task creation failed via Saga")
  answer_saga (some task) =
      pure (record { message = "Task created successfully via Saga"; task = task })

  unfoldable pub create_saga : TaskBody → Promise D.State Created
  create_saga body = do task ← D.create_task (task_document body); answer_saga task

  unfoldable pub delete_saga : String → Promise D.State Deleted
  delete_saga task_id = do
    result ← D.find_task_by_id_and_delete task_id
    elim result [
      | none ↦ throw (rpc_exception 404 ("Task with ID " <> task_id <> " not found for deletion"))
      | some task ↦ pure (record { success = true; message = "Task deleted successfully" })
    ]

-- What the service relies on. A transaction is applied whole or not at all, also when the answer
-- to the commit is lost; nothing else touches the committed collections.
pub record IsLawful (D : Database) : Type 0 where
  pub tasks-start_session : (s : D.State) → D.tasks (D.start_session s).1 ≡ D.tasks s
  pub outbox-start_session : (s : D.State) → D.outbox (D.start_session s).1 ≡ D.outbox s
  pub staged_tasks-start_session :
      (s : D.State) (x : D.Session)
      → (D.start_session s).0 ≡ ok x
      → D.staged_tasks x (D.start_session s).1 ≡ []
  pub staged_outbox-start_session :
      (s : D.State) (x : D.Session)
      → (D.start_session s).0 ≡ ok x
      → D.staged_outbox x (D.start_session s).1 ≡ []
  pub tasks-create_task_in :
      (x : D.Session) (o : Option Task) (s : D.State)
      → D.tasks (D.create_task_in x o s).1 ≡ D.tasks s
  pub outbox-create_task_in :
      (x : D.Session) (o : Option Task) (s : D.State)
      → D.outbox (D.create_task_in x o s).1 ≡ D.outbox s
  pub create_task_in_ok :
      (x : D.Session) (o : Option Task) (s : D.State) (t : Document Task)
      → (D.create_task_in x o s).0 ≡ ok t
      → (o ≡ some t.fields)
        × (D.staged_tasks x (D.create_task_in x o s).1 ≡ D.staged_tasks x s ++ t ∷ [])
        × (D.staged_outbox x (D.create_task_in x o s).1 ≡ D.staged_outbox x s)
  pub tasks-create_outbox_in :
      (x : D.Session) (o : Outbox) (s : D.State) → D.tasks (D.create_outbox_in x o s).1 ≡ D.tasks s
  pub outbox-create_outbox_in :
      (x : D.Session) (o : Outbox) (s : D.State)
      → D.outbox (D.create_outbox_in x o s).1 ≡ D.outbox s
  pub create_outbox_in_ok :
      (x : D.Session) (o : Outbox) (s : D.State) (t : Document Outbox)
      → (D.create_outbox_in x o s).0 ≡ ok t
      → (t.fields ≡ o)
        × (D.staged_tasks x (D.create_outbox_in x o s).1 ≡ D.staged_tasks x s)
        × (D.staged_outbox x (D.create_outbox_in x o s).1 ≡ D.staged_outbox x s ++ t ∷ [])
  pub commit_ok :
      (x : D.Session) (s : D.State)
      → (D.commit_transaction x s).0 ≡ ok tt
      → (D.tasks (D.commit_transaction x s).1 ≡ D.tasks s ++ D.staged_tasks x s)
        × (D.outbox (D.commit_transaction x s).1 ≡ D.outbox s ++ D.staged_outbox x s)
  pub commit_whole :
      (x : D.Session) (s : D.State)
      → ((D.tasks (D.commit_transaction x s).1 ≡ D.tasks s)
          × (D.outbox (D.commit_transaction x s).1 ≡ D.outbox s))
        ⊎ ((D.tasks (D.commit_transaction x s).1 ≡ D.tasks s ++ D.staged_tasks x s)
            × (D.outbox (D.commit_transaction x s).1 ≡ D.outbox s ++ D.staged_outbox x s))
  pub tasks-abort : (x : D.Session) (s : D.State) → D.tasks (D.abort_transaction x s).1 ≡ D.tasks s
  pub outbox-abort :
      (x : D.Session) (s : D.State) → D.outbox (D.abort_transaction x s).1 ≡ D.outbox s
  pub tasks-end_session : (x : D.Session) (s : D.State) → D.tasks (D.end_session x s).1 ≡ D.tasks s
  pub outbox-end_session :
      (x : D.Session) (s : D.State) → D.outbox (D.end_session x s).1 ≡ D.outbox s
