-- ===== src/Outbox/Poller.antt =====
-- apps/task-service/src/task/outbox-poller.service.ts: the background worker that publishes the
-- pending rows of the outbox to Kafka. MongoDB and Kafka are a parameter, `Backend`.
pub mod Rows
pub mod Delivery
pub mod Bounds
pub mod Outage
pub mod Quarantine
pub mod Sound
pub mod Unsaved
pub mod Progress
pub mod Tests
use workflowhub.Prelude.{
  ℕ, ◌+◌, ◌≤◌, ◌≡◌, String, Bool, true, false, Option, some, none, List, [], ◌∷◌, ◌++◌, ◌⊎◌, length,
  All, Document, lookup, put, Error, Result, ok, err, Promise, ◌>>=◌, ◌>>◌, pure, try_catch, after,
  leb, nat_beq, if◌then◌else◌, or_string,
}
use workflowhub.Outbox.{Outbox, OutboxStatus, pending, completed, failed, TaskCreated}

-- A message of Kafka: its topic and its value.
abbrev pub Message : Type 0
Message = String × TaskCreated

-- The query `find({ status }).sort({ createdAt: 1 }).limit(n)`.
pub record Query : Type 0 where
  pub status : OutboxStatus
  pub oldest_first : Bool
  pub limit : ℕ

-- The outbox collection and the Kafka client. `events` and `log` are what an observer sees:
-- the stored rows, and the messages that the broker has accepted.
pub record Backend : Type 1 where
  pub State : Type 0
  pub events : State → List (Document Outbox)
  pub log : State → List Message
  pub now : State → ℕ
  pub find : Query → Promise State (List (Document Outbox))
  pub emit : String → TaskCreated → Promise State (Unit {0})
  pub save : Document Outbox → Promise State (Unit {0})

abbrev pub poll_query : Query
poll_query = record { status = pending; oldest_first = true; limit = 10 }

abbrev pub max_attempts : ℕ
max_attempts = 25

-- `error.message || String(error)`
abbrev pub describe : Error → String
describe e = or_string e.message (or_string e.name "Error")

-- The assignments on success.
abbrev pub mark_completed : ℕ → Outbox → Outbox
mark_completed now o = record o {
  status = completed;
  processed_at = some now;
  attempts = o.attempts + 1;
}

-- The assignments of the `catch` block.
pub mark_error : ℕ → Error → Outbox → Outbox
mark_error now e o =
    let tried : Outbox = record o { attempts = o.attempts + 1; error = some (describe e) } in
    if leb max_attempts tried.attempts
    then record tried { status = failed; processed_at = some now }
    else tried

abbrev pub message_of : Outbox → Message
message_of o = (o.pattern, o.payload)

abbrev pub with_fields : Document Outbox → Outbox → Document Outbox
with_fields d o = record d { fields = o }

-- The poller service: its flag, and the services behind it.
pub record Poller (B : Backend) : Type 0 where
  pub is_polling : Bool
  pub backend : B.State

module _ (B : Backend) where
  -- The `catch` block of the loop: the row as it stands in memory is updated and saved.
  pub on_error : Document Outbox → Error → Promise B.State (Unit {0})
  unfolding mark_error
  on_error event e s = B.save (with_fields event (mark_error (B.now s) e event.fields)) s

  -- After a successful publication; the `catch` block sees the row as it was changed here.
  pub on_published : Document Outbox → Promise B.State (Unit {0})
  on_published event s =
      let done = with_fields event (mark_completed (B.now s) event.fields) in
      try_catch (B.save done) (on_error done) s

  -- One round of the loop over the pending rows.
  pub process_event : Document Outbox → Promise B.State (Unit {0})
  unfolding on_error on_published
  process_event event s =
      after (B.emit event.fields.pattern event.fields.payload s) (λ _. on_published event)
        (on_error event)

  pub process_events : List (Document Outbox) → Promise B.State (Unit {0})
  process_events [] = pure tt
  process_events (event ∷ events) = process_event event >> process_events events

  -- The body of the outer `try`.
  pub poll_events : Promise B.State (Unit {0})
  poll_events = B.find poll_query >>= λ pending_events.
      if nat_beq (length pending_events) 0 then pure tt else process_events pending_events

  -- `pollOutbox`: the outer `catch` only logs, and `finally` clears the flag.
  pub poll_outbox : Poller B → Poller B
  poll_outbox p =
      let started : Poller B = record p { is_polling = true } in
      let after : B.State = (try_catch poll_events (λ _. pure tt) started.backend).1 in
      if p.is_polling then p else record started { is_polling = false; backend = after }

-- What the poller relies on. A rejected `save` or `emit` may still have taken effect.
pub record IsLawful (B : Backend) : Type 0 where
  pub events-find : (q : Query) (s : B.State) → B.events (B.find q s).1 ≡ B.events s
  pub log-find : (q : Query) (s : B.State) → B.log (B.find q s).1 ≡ B.log s
  pub find-status :
      (q : Query) (s : B.State) (ds : List (Document Outbox))
      → (B.find q s).0 ≡ ok ds
      → All (λ d. (lookup d.id (B.events s) ≡ some d.fields) × (d.fields.status ≡ q.status)) ds
  pub find-limit :
      (q : Query) (s : B.State) (ds : List (Document Outbox))
      → (B.find q s).0 ≡ ok ds
      → length ds ≤ q.limit
  pub events-emit :
      (t : String) (v : TaskCreated) (s : B.State) → B.events (B.emit t v s).1 ≡ B.events s
  pub log-emit_ok :
      (t : String) (v : TaskCreated) (s : B.State)
      → (B.emit t v s).0 ≡ ok tt
      → B.log (B.emit t v s).1 ≡ B.log s ++ (t, v) ∷ []
  pub log-emit :
      (t : String) (v : TaskCreated) (s : B.State)
      → (B.log (B.emit t v s).1 ≡ B.log s) ⊎ (B.log (B.emit t v s).1 ≡ B.log s ++ (t, v) ∷ [])
  pub log-save : (d : Document Outbox) (s : B.State) → B.log (B.save d s).1 ≡ B.log s
  pub events-save_ok :
      (d : Document Outbox) (s : B.State)
      → (B.save d s).0 ≡ ok tt
      → B.events (B.save d s).1 ≡ put d (B.events s)
  pub events-save :
      (d : Document Outbox) (s : B.State)
      → (B.events (B.save d s).1 ≡ B.events s) ⊎ (B.events (B.save d s).1 ≡ put d (B.events s))
