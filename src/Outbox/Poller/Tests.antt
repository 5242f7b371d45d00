-- ===== src/Outbox/Poller/Tests.antt =====
-- A collection of one row behind a scripted database and broker, and the theorems about the poller
-- at concrete runs of it.
use workflowhub.Prelude.{
  ◌≡◌, refl, ◌∙◌, ap, sym, inl, inr, ℕ, ◌+◌, ◌≤◌, ◌*◌, ◌⊎◌, ltb, nat_beq, Bool, true, false, ◌&&◌,
  ◌==◌, eq_iff, some, none, List, [], ◌∷◌, ◌++◌, arith, All, Member, Document, lookup, put, ok, err,
  new_error, length, if◌then◌else◌, Bool-cases,
}
use workflowhub.Outbox.{Outbox, OutboxStatus, pending, completed, failed, TaskCreated}
use workflowhub.Outbox.Poller.{
  Message, Query, Backend, IsLawful, Poller, poll_query, process_event, process_events, poll_events,
  poll_outbox, message_of,
}
use workflowhub.Outbox.Poller.Rows.{Holds}
use workflowhub.Outbox.Poller.Delivery.{
  Published, IsConsistent, poll_outbox-Published, poll_outbox-IsConsistent,
}
use workflowhub.Outbox.Poller.Bounds.{sent-poll_outbox}
use workflowhub.Outbox.Poller.Outage.{IsOutage}
use workflowhub.Outbox.Poller.Quarantine.{polls, IsTried, polls-IsTried}
use workflowhub.Outbox.Poller.Progress.{IsWorking, AreApart, pending_rows, polls-Completed}
use workflowhub.Outbox.Poller.Unsaved.{process_event-unsaved}

-- The row, the messages accepted so far, and the number of calls made, which serves as the clock.
pub record Slot : Type 0 where
  pub row : Document Outbox
  pub messages : List Message
  pub calls : ℕ

pub has_status : OutboxStatus → OutboxStatus → Bool
has_status pending pending = true
has_status completed completed = true
has_status failed failed = true
has_status _ _ = false

has_status→eq : (a b : OutboxStatus) → has_status a b ≡ true → a ≡ b
unfolding has_status
has_status→eq pending pending h = refl
has_status→eq completed completed h = refl
has_status→eq failed failed h = refl
has_status→eq _ _ h = cc

abbrev called : Slot → Slot
called s = record s { calls = s.calls + 1 }

abbrev found_rows : Query → Document Outbox → List (Document Outbox)
found_rows q d = if has_status d.fields.status q.status && ltb 0 q.limit then d ∷ [] else []

abbrev stored : Document Outbox → Slot → Slot
stored d s = if s.row.id == d.id then record s { row = d } else s

-- The call with number `n` to the broker works if `emits n`, and one to save if `saves n`.
abbrev pub slot : (ℕ → Bool) → (ℕ → Bool) → Backend
slot emits saves = record {
  State = Slot;
  events = λ s. s.row ∷ [];
  log = λ s. s.messages;
  now = λ s. s.calls;
  find = λ q s. (ok (found_rows q s.row), called s);
  emit = λ t v s.
      if emits s.calls
      then (ok tt, called (record s { messages = s.messages ++ (t, v) ∷ [] }))
      else (err (new_error "broker"), called s);
  save = λ d s.
      if saves s.calls
      then (ok tt, called (stored d s))
      else (err (new_error "database"), called s);
}

module _ (emits saves : ℕ → Bool) where
  abbrev backend : Backend
  backend = slot emits saves

  find-status :
      (q : Query) (s : Slot) (ds : List (Document Outbox))
      → (backend.find q s).0 ≡ ok ds
      → All
          (λ d. (lookup d.id (backend.events s) ≡ some d.fields) × (d.fields.status ≡ q.status))
          ds
  unfolding lookup
  find-status q s ds e =
      elim (Bool-cases (has_status s.row.fields.status q.status && ltb 0 q.limit)) [
        | inl there ↦
            let one : ds ≡ s.row ∷ [] = ground arith in
            rw one
              ((ground (arith, eq_iff s.row.id s.row.id), has_status→eq _ _ (ground arith)), tt)
        | inr gone ↦ let empty : ds ≡ [] = ground arith in rw empty tt
      ]

  find-limit :
      (q : Query) (s : Slot) (ds : List (Document Outbox))
      → (backend.find q s).0 ≡ ok ds
      → length ds ≤ q.limit
  find-limit q s ds e =
      elim (Bool-cases (has_status s.row.fields.status q.status && ltb 0 q.limit)) [
        | inl there ↦ let one : ds ≡ s.row ∷ [] = ground arith in rw one (ground arith)
        | inr gone ↦ let empty : ds ≡ [] = ground arith in rw empty (omega arith)
      ]

  pub slot-IsLawful : IsLawful backend
  unfolding put
  slot-IsLawful = record {
    events-find = λ q s. refl;
    log-find = λ q s. refl;
    find-status = find-status;
    find-limit = find-limit;
    events-emit = λ t v s. ground arith;
    log-emit_ok = λ t v s e. ground arith;
    log-emit = λ t v s. ground arith;
    log-save = λ d s. ground arith;
    events-save_ok = λ d s e. ground arith;
    events-save = λ d s. ground arith;
  }

abbrev pub payload : TaskCreated
payload = record {
  user_id = "u1";
  task_id = "t1";
  title = "Write";
  message = "Task Created Successfully";
  type = "EMAIL";
}

abbrev pub row_at : ℕ → Document Outbox
row_at n = record {
  id = "o1";
  fields = record {
    pattern = "task.created";
    payload = payload;
    status = pending;
    attempts = n;
    error = none;
    processed_at = none;
    created_at = 2;
  };
}

abbrev slot_at : ℕ → Slot
slot_at n = record { row = row_at n; messages = []; calls = 0 }

abbrev pub always : ℕ → Bool
always n = true

abbrev never : ℕ → Bool
never n = false

abbrev pub idle : (emits saves : ℕ → Bool) → ℕ → Poller (slot emits saves)
idle emits saves n = record { is_polling = false; backend = slot_at n }

pub stored_o1 : (n : ℕ) → lookup "o1" (row_at n ∷ []) ≡ some (row_at n).fields
unfolding lookup
stored_o1 n = refl

-- All calls work but the second, which is the first save.
abbrev not_second : ℕ → Bool
not_second n = if nat_beq n 1 then false else true

first_poll : poll_outbox (slot always always) (idle always always 0) ≡ record {
  is_polling = false;
  backend = record {
    row = record {
      id = "o1";
      fields = record (row_at 0).fields { status = completed; attempts = 1; processed_at = some 2 };
    };
    messages = message_of (row_at 0).fields ∷ [];
    calls = 3;
  };
}
unfolding poll_outbox poll_events process_events process_event has_status
first_poll = refl

poll_outbox-Published_example :
    Holds
      (slot always always)
      Published
      (poll_outbox (slot always always) (idle always always 0)).backend
poll_outbox-Published_example =
    poll_outbox-Published (slot always always) (slot-IsLawful always always) (idle always always 0)
      (ground arith, tt)

poll_outbox-IsConsistent_example :
    Holds
      (slot never always)
      (λ _ o. IsConsistent o)
      (poll_outbox (slot never always) (idle never always 24)).backend
poll_outbox-IsConsistent_example =
    poll_outbox-IsConsistent (slot never always) (slot-IsLawful never always) (idle never always 24)
      (ground arith, tt)

sent-poll_outbox_example :
    length (poll_outbox (slot always always) (idle always always 0)).backend.messages ≤ 0 + 10
sent-poll_outbox_example =
    sent-poll_outbox (slot always always) (slot-IsLawful always always) (idle always always 0)

row_found : (r d : Document Outbox) → lookup d.id (r ∷ []) ≡ some d.fields → d ≡ r
unfolding lookup
row_found r d e =
    let same : d.id ≡ r.id = ground (arith, eq_iff r.id d.id) in
    let copy : d.fields ≡ r.fields = ground (arith, eq_iff r.id d.id) in
    λ i. record { id = same i; fields = copy i }

found_pending : (r : Document Outbox) → r.fields.status ≡ pending → found_rows poll_query r ≡ r ∷ []
unfolding has_status
found_pending r p = rw p

find_works :
    (s : Slot)
    → (ds : List (Document Outbox)) × (((slot never always).find poll_query s).0 ≡ ok ds)
      × ((d : Document Outbox)
          → lookup d.id (s.row ∷ []) ≡ some d.fields
          → d.fields.status ≡ pending
          → Member d ds)
find_works s = (
  found_rows poll_query s.row,
  refl,
  λ d e p.
      let same : d ≡ s.row = row_found s.row d e in
      rw (found_pending s.row (ap (λ (x : Document Outbox). x.fields.status) (sym same) ∙ p))
        (inl same),
)

never-IsOutage : IsOutage (slot never always)
never-IsOutage = record {
  emit_fails = λ t v s. (new_error "broker", refl);
  save_works = λ d s. refl;
  find_works = find_works;
}

polls-IsTried_example :
    (o : Outbox) × (lookup "o1"
        ((polls (slot never always) 25 (idle never always 0)).backend.row ∷ [])
      ≡ some o)
    × IsTried 25 o
polls-IsTried_example =
    polls-IsTried (slot never always) (slot-IsLawful never always) never-IsOutage "o1"
      (idle never always 0) (row_at 0).fields refl (stored_o1 0) refl refl 25

-- The row had been tried 23 times: its message is published, and it is stored as failed.
process_event-unsaved_example :
    (o : Outbox) × (lookup "o1"
        ((process_event (slot always not_second) (row_at 23) (slot_at 23)).1.row ∷ [])
      ≡ some o)
    × Member
        (message_of (row_at 23).fields)
        (process_event (slot always not_second) (row_at 23) (slot_at 23)).1.messages
    × (o.attempts ≡ 25)
    × (o.status ≡ failed)
process_event-unsaved_example =
    process_event-unsaved (slot always not_second) (slot-IsLawful always not_second) (row_at 23)
      (slot_at 23) (stored_o1 23) refl refl refl

-- The first poll publishes the row and marks it.
abbrev pub completed_row : Document Outbox
completed_row = record {
  id = "o1";
  fields = record (row_at 0).fields { status = completed; processed_at = some 2; attempts = 1 };
}

abbrev pub polled : Slot
polled = (polls (slot always always) 1 (idle always always 0)).backend

pub first_row : polled.row ∷ [] ≡ completed_row ∷ []
unfolding polls poll_outbox poll_events process_events process_event has_status
first_row = refl

pub first_log : polled.messages ≡ ("task.created", payload) ∷ []
unfolding polls poll_outbox poll_events process_events process_event has_status
first_log = refl

-- With every call working, one poll is enough for the row.
module _ (s : Slot) where
  find_works_always :
      (ds : List (Document Outbox)) × (((slot always always).find poll_query s).0 ≡ ok ds)
      × AreApart ds
      × ((pending_rows (s.row ∷ []) ≤ length ds) ⊎ (poll_query.limit ≤ length ds))
  unfolding pending_rows has_status
  find_works_always = found s.row.fields.status refl
    where
      found :
          (st : OutboxStatus)
          → s.row.fields.status ≡ st
          → (ds : List (Document Outbox)) × (((slot always always).find poll_query s).0 ≡ ok ds)
            × AreApart ds
            × ((pending_rows (s.row ∷ []) ≤ length ds) ⊎ (poll_query.limit ≤ length ds))
      found pending is = (s.row ∷ [], rw is, (tt, tt), inl (rw is (omega arith)))
      found completed is = ([], rw is, tt, inl (rw is (omega arith)))
      found failed is = ([], rw is, tt, inl (rw is (omega arith)))

pub always-IsWorking : IsWorking (slot always always)
always-IsWorking = record {
  emit_works = λ t v s. refl;
  save_works = λ d s. refl;
  find_works = find_works_always;
}

one_waits : pending_rows (row_at 0 ∷ []) ≡ 1
unfolding pending_rows
one_waits = refl

pub one_is_few : pending_rows (row_at 0 ∷ []) ≤ poll_query.limit * 1
one_is_few = omega (arith, one_waits)

polls-Completed_example :
    (o' : Outbox) × (lookup "o1"
        ((polls (slot always always) 1 (idle always always 0)).backend.row ∷ [])
      ≡ some o')
    × (o'.status ≡ completed)
    × (message_of o' ≡ message_of (row_at 0).fields)
polls-Completed_example =
    polls-Completed (slot always always) (slot-IsLawful always always) always-IsWorking 1
      (idle always always 0) "o1" (row_at 0).fields refl one_is_few (stored_o1 0) (inl refl)
