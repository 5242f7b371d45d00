-- ===== src/Task.antt =====
-- apps/task-service/src/schemas/task.schema.ts: the documents of the task collection.
pub mod Service
pub mod Controller
pub mod Fields
use workflowhub.Prelude.{String, Option, none, some, truthy, if◌then◌else◌}

pub record Task : Type 0 where
  pub title : String
  pub description : String
  pub user_id : String

-- The request of a creation, as it comes from the wire: fields may be missing.
pub record TaskBody : Type 0 where
  pub title : Option String
  pub description : Option String
  pub user_id : Option String

-- `@Prop({ required: true })` on a string: a missing or an empty one fails the validation.
abbrev pub required : Option String → Option String
required none = none
required (some s) = if truthy s then some s else none

-- The schema of a task: all three fields are required.
unfoldable pub task_document : TaskBody → Option Task
task_document b = elim (required b.title) [
  | none ↦ none
  | some title ↦ elim (required b.description) [
    | none ↦ none
    | some description ↦ elim (required b.user_id) [
      | none ↦ none
      | some user_id ↦ some (record { title = title; description = description; user_id = user_id })
    ]
  ]
]
