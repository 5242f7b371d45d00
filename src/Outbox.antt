-- ===== src/Outbox.antt =====
-- apps/task-service/src/schemas/outbox.schema.ts: the record of the outbox collection, and the
-- payload that the task service puts in it (task.service.ts).
pub mod Poller
use workflowhub.Prelude.{ℕ, String, Option}

pub data OutboxStatus : Type 0 where
  pending completed failed : OutboxStatus

-- The payload of a `task.created` event.
pub record TaskCreated : Type 0 where
  pub user_id : String
  pub task_id : String
  pub title : String
  pub message : String
  pub type : String

-- Dates are milliseconds; `created_at` is the column that `timestamps` adds.
pub record Outbox : Type 0 where
  pub pattern : String
  pub payload : TaskCreated
  pub status : OutboxStatus
  pub attempts : ℕ
  pub error : Option String
  pub processed_at : Option ℕ
  pub created_at : ℕ
