-- ===== src/Pipeline/Once.antt =====
-- Each task whose row is marked completed is counted exactly once.
use workflowhub.Prelude.{
  ◌≡◌, ◌∙◌, ap, sym, subst, inl, inr, ℕ, zero, suc, ◌+◌, String, Bool, true, false, truthy, some,
  List, [], ◌∷◌, Member, All, Document,
}
use workflowhub.Outbox.{Outbox, completed}
use workflowhub.Outbox.Poller
use workflowhub.Outbox.Poller.{Message, Poller, message_of}
use workflowhub.Outbox.Poller.Rows.{Holds}
use workflowhub.Outbox.Poller.Delivery.{PublishedAs, Published, poll_outbox-Published}
use workflowhub.Outbox.Poller.Quarantine.{polls}
use workflowhub.Outbox.Poller.Sound.{IsSound, polls-IsSound}
use workflowhub.Analytics
use workflowhub.Analytics.{EventData}
use workflowhub.Analytics.Once.{IsHealthy, deliver, seen_in, count-deliver}
use workflowhub.Events.{event_data, ids-some}
use workflowhub.Pipeline.{TaskId, task_of, IsDistinct, owned, IsDelivery}
use workflowhub.Pipeline.Counting.{Concerns, Covers, Known, new_tasks-owned}

-- The user and the identifier are not empty.
abbrev pub IsNamed : List TaskId → Type 0
IsNamed tasks = All (λ x. (truthy x.0 ≡ true) × (truthy x.1 ≡ true)) tasks

-- Every task has a row that is marked completed.
abbrev pub AreCompleted : List TaskId → List (Document Outbox) → Type 0
AreCompleted tasks rows =
    (x : TaskId)
    → Member x tasks
    → (d : Document Outbox) × Member d rows
      × (d.fields.status ≡ completed)
      × (task_of (message_of d.fields) ≡ x)

All-Member {κ} : {A : Type 0} (P : A → Type κ) (xs : List A) (a : A) → All P xs → Member a xs → P a
All-Member P [] a h m = absurd m
All-Member P (x ∷ xs) a (p, h) (inl e) = subst P (sym e) p
All-Member P (x ∷ xs) a (p, h) (inr m) = All-Member P xs a h m

event_data-Concerns :
    (tasks : List TaskId) (m : Message)
    → IsNamed tasks
    → Member (task_of m) tasks
    → Concerns (event_data m.1) (task_of m)
event_data-Concerns tasks m named there =
    let (user, task) =
      All-Member (λ (x : TaskId). (truthy x.0 ≡ true) × (truthy x.1 ≡ true)) tasks (task_of m) named
        there in
    ids-some m.1.user_id m.1.task_id user task

polls-Published :
    (P : Poller.Backend) (L : Poller.IsLawful P) (n : ℕ) (p : Poller P)
    → Holds P Published p.backend
    → Holds P Published (polls P n p).backend
unfolding polls
polls-Published P L zero p h = h
polls-Published P L (suc n) p h =
    poll_outbox-Published P L (polls P n p) (polls-Published P L n p h)

module _ (tasks : List TaskId) (distinct : IsDistinct tasks) (named : IsNamed tasks) where
  delivered-Known :
      (log : List Message) (events : List EventData)
      → All (λ m. Member (task_of m) tasks) log
      → IsDelivery log events
      → Known tasks events
  delivered-Known log events sound D e there =
      let (m, logged, same) = D.from_log e there in
      let task : Member (task_of m) tasks =
        All-Member (λ (k : Message). Member (task_of k) tasks) log m sound logged in
      (
        task_of m,
        task,
        subst (λ c. Concerns c (task_of m)) (sym same) (event_data-Concerns tasks m named task),
      )

  delivered-Covers :
      (rows : List (Document Outbox)) (log : List Message) (events : List EventData)
      (seen : String → Bool)
      → All (λ d. Published log d.fields) rows
      → AreCompleted tasks rows
      → IsDelivery log events
      → Covers seen tasks events
  delivered-Covers rows log events seen published done D x m new =
      let (d, there, marked, same) = done x m in
      let logged : Member (message_of d.fields) log =
        subst (λ st. PublishedAs st (message_of d.fields) log) marked
          (All-Member (λ (c : Document Outbox). Published log c.fields) rows d published there) in
      let known : Member (task_of (message_of d.fields)) tasks =
        subst (λ y. Member y tasks) (sym same) m in
      (
        event_data (message_of d.fields).1,
        D.delivered (message_of d.fields) logged,
        event_data-Concerns tasks (message_of d.fields) named known ∙ ap some same,
      )

  module _ (P : Poller.Backend) (L : Poller.IsLawful P) (B : Analytics.Backend)
      (M : Analytics.IsLawful B) (H : IsHealthy B) where
    -- From the outbox to the counters: let the outbox hold rows of some distinct tasks with a user and
    -- an identifier, and let it be true that completed rows are published. If after any number of
    -- polls every task has a completed row, then Kafka may deliver what is in the log in any order and
    -- as often as it likes: in an analytics service that works and has not seen the tasks, the
    -- counter of every user grows by the number of the user's tasks.
    pub count-polls :
        (n : ℕ) (p : Poller P) (events : List EventData) (s : B.State) (u : String)
        → Holds P Published p.backend
        → IsSound P L (λ m. Member (task_of m) tasks) p.backend
        → AreCompleted tasks (P.events (polls P n p).backend)
        → IsDelivery (P.log (polls P n p).backend) events
        → ((x : TaskId) → Member x tasks → seen_in B M H s x.1 ≡ false)
        → B.count (deliver B events s) u ≡ B.count s u + owned u tasks
    count-polls n p events s u published sound done D new =
        let t = (polls P n p).backend in
        let after = polls-IsSound P L (λ m. Member (task_of m) tasks) n p sound in
        count-deliver B M H events s u
        ∙ ap (λ k. B.count s u + k)
            (new_tasks-owned (seen_in B M H s) u tasks events distinct
              (delivered-Known (P.log t) events after.1 D)
              (delivered-Covers (P.events t) (P.log t) events (seen_in B M H s)
                (polls-Published P L n p published) done D)
              new)
