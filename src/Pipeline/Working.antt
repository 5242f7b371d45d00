-- ===== src/Pipeline/Working.antt =====
-- Each task is counted once, and soon: the pipeline while the poller works.
use workflowhub.Prelude.{
  ◌≡◌, ◌≤◌, ◌*◌, ◌∙◌, refl, ap, inl, inr, ℕ, ◌+◌, String, Bool-cases, false, some, List, [], ◌∷◌,
  ◌==◌, arith, Member, Document, lookup,
}
use workflowhub.Outbox.{Outbox}
use workflowhub.Outbox.Poller
use workflowhub.Outbox.Poller.{Poller, poll_query, message_of}
use workflowhub.Outbox.Poller.Rows.{Holds}
use workflowhub.Outbox.Poller.Delivery.{Published}
use workflowhub.Outbox.Poller.Quarantine.{polls}
use workflowhub.Outbox.Poller.Sound.{IsSound}
use workflowhub.Outbox.Poller.Progress.{IsWorking, pending_rows, Alive, polls-Completed}
use workflowhub.Analytics
use workflowhub.Analytics.{EventData}
use workflowhub.Analytics.Once.{IsHealthy, deliver, seen_in}
use workflowhub.Pipeline.{TaskId, task_of, IsDistinct, owned, IsDelivery}
use workflowhub.Pipeline.Once.{IsNamed, AreCompleted, count-polls}

-- Every task has a row that is not failed.
abbrev pub AreAlive : List TaskId → List (Document Outbox) → Type 0
AreAlive tasks rows =
    (x : TaskId)
    → Member x tasks
    → (i : String) × (o : Outbox) × (lookup i rows ≡ some o)
      × Alive o.status
      × (task_of (message_of o) ≡ x)

lookup-Member :
    (i : String) (rows : List (Document Outbox)) (o : Outbox)
    → lookup i rows ≡ some o
    → (d : Document Outbox) × Member d rows × (d.fields ≡ o)
unfolding lookup
lookup-Member i [] o found = absurd (cc)
lookup-Member i (x ∷ xs) o found = elim (Bool-cases (x.id == i)) [
  | inl same ↦ (x, inl refl, ground arith)
  | inr other ↦ let (d, there, is) = lookup-Member i xs o (ground arith) in (d, inr there, is)
]

module _ (tasks : List TaskId) (distinct : IsDistinct tasks) (named : IsNamed tasks)
    (P : Poller.Backend) (L : Poller.IsLawful P) (W : IsWorking P) (B : Analytics.Backend)
    (M : Analytics.IsLawful B) (H : IsHealthy B) where
  polls-AreCompleted :
      (n : ℕ) (p : Poller P)
      → p.is_polling ≡ false
      → pending_rows (P.events p.backend) ≤ poll_query.limit * n
      → AreAlive tasks (P.events p.backend)
      → AreCompleted tasks (P.events (polls P n p).backend)
  polls-AreCompleted n p idle few alive x m =
      let (i, o, found, live, is) = alive x m in
      let (o', there, done, same) = polls-Completed P L W n p i o idle few found live in
      let (d, member, fields) = lookup-Member i (P.events (polls P n p).backend) o' there in
      (
        d,
        member,
        ap (λ (r : Outbox). r.status) fields ∙ done,
        ap (λ (r : Outbox). task_of (message_of r)) fields ∙ ap task_of same ∙ is,
      )

  -- From the outbox to the counters, while the poller works: let the outbox hold rows of some distinct
  -- tasks with a user and an identifier, one for each at least that is not failed, and let completed
  -- rows be published. Then after `n` polls, where no more than ten times `n` rows were waiting, Kafka
  -- may deliver what is in the log in any order and as often as it likes: in an analytics service that
  -- works and has not seen the tasks, the counter of every user grows by the number of the user's
  -- tasks.
  pub count-polls_working :
      (n : ℕ) (p : Poller P) (events : List EventData) (s : B.State) (u : String)
      → p.is_polling ≡ false
      → pending_rows (P.events p.backend) ≤ poll_query.limit * n
      → AreAlive tasks (P.events p.backend)
      → Holds P Published p.backend
      → IsSound P L (λ m. Member (task_of m) tasks) p.backend
      → IsDelivery (P.log (polls P n p).backend) events
      → ((x : TaskId) → Member x tasks → seen_in B M H s x.1 ≡ false)
      → B.count (deliver B events s) u ≡ B.count s u + owned u tasks
  count-polls_working n p events s u idle few alive published sound D new =
      count-polls tasks distinct named P L B M H n p events s u published sound
        (polls-AreCompleted n p idle few alive) D new
