-- ===== src/Pipeline.antt =====
-- From the outbox of the task service over Kafka to the counters of the analytics service:
-- outbox-poller.service.ts and analytics-service.controller.ts together.
pub mod Counting
pub mod Once
pub mod Working
pub mod Creations
mod Tests
use workflowhub.Prelude.{
  ◌≡◌, ℕ, ◌+◌, String, Bool, true, false, ◌==◌, List, [], ◌∷◌, Member, All, if◌then◌else◌, Document,
  Option, some,
}
use workflowhub.Outbox.{TaskCreated, Outbox}
use workflowhub.Outbox.Poller.{Message}
use workflowhub.Analytics.{EventData}
use workflowhub.Events.{event_data}

-- A task, by its user and its identifier.
abbrev pub TaskId : Type 0
TaskId = String × String

abbrev pub task_of : Message → TaskId
task_of m = (m.1.user_id, m.1.task_id)

-- No identifier twice.
abbrev pub HasNo : String → List TaskId → Type 0
HasNo t [] = Unit
HasNo t ((v, x) ∷ rest) = ((x == t) ≡ false) × HasNo t rest

abbrev pub IsDistinct : List TaskId → Type 0
IsDistinct [] = Unit
IsDistinct ((v, t) ∷ rest) = HasNo t rest × IsDistinct rest

-- How many of the tasks are those of a user.
unfoldable pub owned : String → List TaskId → ℕ
owned u [] = 0
owned u ((v, t) ∷ rest) = (if v == u then 1 else 0) + owned u rest

-- What Kafka delivers of a log to a consumer: each message at least once, in any order, and
-- nothing else.
pub record IsDelivery (log : List Message) (events : List EventData) : Type 0 where
  pub delivered : (m : Message) → Member m log → Member (event_data m.1) events
  pub from_log :
      (e : EventData) → Member e events → (m : Message) × Member m log × (e ≡ event_data m.1)
