-- ===== src/Pipeline/Tests.antt =====
-- One task, one poll, and a message that Kafka delivers twice.
use workflowhub.Prelude.{◌≡◌, refl, sym, ap, subst, inl, inr, ◌+◌, List, [], ◌∷◌}
use workflowhub.Outbox.Poller.{
  Poller, poll_outbox, poll_events, process_events, process_event, on_published,
}
use workflowhub.Outbox.Poller
use workflowhub.Outbox.Poller.Tests.{
  slot, slot-IsLawful, idle, payload, row_at, stored_o1, always-IsWorking, one_is_few, first_log,
}
use workflowhub.Outbox.Poller.Quarantine.{polls}
use workflowhub.Analytics.{EventData}
use workflowhub.Analytics.Tests.{memory, memory-IsLawful, always, always-IsHealthy, empty}
use workflowhub.Analytics.Once.{deliver}
use workflowhub.Events.{event_data}
use workflowhub.Pipeline.{TaskId, owned, IsDelivery}
use workflowhub.Pipeline.Working.{AreAlive, count-polls_working}
use workflowhub.Pipeline.Creations.{creates, task_ids, Matched, HasIds, count-creates}
use workflowhub.Task.{TaskBody}
use workflowhub.Task.Service.Tests as TaskTests

abbrev tasks : List TaskId
tasks = ("u1", "t1") ∷ []

abbrev poller : Poller (slot always always)
poller = idle always always 0

abbrev outbox : Poller.Backend
outbox = slot always always

abbrev polled : outbox.State
polled = (polls outbox 1 poller).backend

abbrev events : List EventData
events = event_data payload ∷ event_data payload ∷ []

events-IsDelivery : IsDelivery (("task.created", payload) ∷ []) events
events-IsDelivery = record {
  delivered = λ m there. elim there [
    | inl e ↦ inl (ap (λ (k : Poller.Message). event_data k.1) e)
    | inr none_left ↦ absurd none_left
  ];
  from_log = λ e there. elim there [
    | inl one ↦ (("task.created", payload), inl refl, one)
    | inr later ↦ elim later [
      | inl two ↦ (("task.created", payload), inl refl, two)
      | inr none_left ↦ absurd none_left
    ]
  ];
}

counted_once : owned "u1" tasks ≡ 1
unfolding owned
counted_once = refl

tasks-AreAlive : AreAlive tasks (outbox.events poller.backend)
tasks-AreAlive x there = elim there [
  | inl same ↦ ("o1", (row_at 0).fields, stored_o1 0, inl refl, sym same)
  | inr none_left ↦ absurd none_left
]

count-polls_working_example :
    (deliver (memory always) events empty).counts "u1" ≡ 0 + owned "u1" tasks
count-polls_working_example =
    count-polls_working tasks (tt, tt) ((refl, refl), tt) outbox (slot-IsLawful always always)
      always-IsWorking (memory always) (memory-IsLawful always) always-IsHealthy 1 poller events
      empty "u1" refl one_is_few tasks-AreAlive (tt, tt) ((inl refl, tt), tt)
      (subst (λ log. IsDelivery log events) (sym first_log) events-IsDelivery) (λ x there. refl)

abbrev bodies : List TaskBody
bodies = TaskTests.body ∷ []

abbrev database : TaskTests.Memory
database = creates (TaskTests.memory TaskTests.always) bodies TaskTests.empty

created_tasks : database.tasks ≡ TaskTests.one_task ∷ []
unfolding creates
created_tasks = TaskTests.collections-create.0

created_rows : database.outbox ≡ TaskTests.one_row ∷ []
unfolding creates
created_rows = TaskTests.collections-create.1

nothing-Matched : Matched [] [] []
nothing-Matched = record {
  alive = λ x there. absurd there;
  known = tt;
  published = tt;
  logged = tt;
  owned_by = tt;
}

database-HasIds : HasIds database.tasks database.outbox
database-HasIds =
    rw (created_tasks, created_rows)
      (record { rows_apart = (tt, tt); tasks_apart = (tt, tt); ids_given = (refl, tt) })

count-creates_example :
    (deliver (memory always) events empty).counts "u1" ≡ 0 + owned "u1" (task_ids database.tasks)
count-creates_example =
    count-creates (TaskTests.memory TaskTests.always) (TaskTests.memory-IsLawful TaskTests.always)
      outbox (slot-IsLawful always always) always-IsWorking (memory always) (memory-IsLawful always)
      always-IsHealthy bodies TaskTests.empty 1 poller events empty "u1" nothing-Matched
      database-HasIds (sym created_rows) refl one_is_few
      (subst (λ log. IsDelivery log events) (sym first_log) events-IsDelivery) (λ x there. refl)
