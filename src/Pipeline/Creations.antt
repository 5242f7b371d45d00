-- ===== src/Pipeline/Creations.antt =====
-- From the requests that create tasks to the counters: the task service, the poller, Kafka and the
-- analytics service.
use workflowhub.Prelude.{
  ◌≡◌, ◌≤◌, ◌*◌, ◌∙◌, refl, sym, ap, subst, ◌⊎◌, inl, inr, ℕ, ◌+◌, String, true, false, truthy,
  ◌==◌, arith, some, List, [], ◌∷◌, ◌++◌, map, Member, All, All-map, Document, lookup, Result,
  eq_iff, ok, err,
}
use workflowhub.Outbox.{Outbox, pending}
use workflowhub.Outbox.Poller
use workflowhub.Outbox.Poller.{Poller, Message, poll_query, message_of}
use workflowhub.Outbox.Poller.Delivery.{Published}
use workflowhub.Outbox.Poller.Quarantine.{polls}
use workflowhub.Outbox.Poller.Progress.{IsWorking, pending_rows, AreApart}
use workflowhub.Task.{Task, TaskBody}
use workflowhub.Task.Fields.{task_document-some}
use workflowhub.Task.Service
use workflowhub.Task.Service.{Database, Created, task_created, text_of, create}
use workflowhub.Task.Service.Atomic.{Stored, AllOrNothing, Post, create-AllOrNothing}
use workflowhub.Analytics
use workflowhub.Analytics.{EventData}
use workflowhub.Analytics.Once.{IsHealthy, deliver, seen_in}
use workflowhub.Pipeline.{TaskId, task_of, IsDistinct, owned, IsDelivery}
use workflowhub.Pipeline.Once.{IsNamed}
use workflowhub.Pipeline.Working.{AreAlive, count-polls_working}

abbrev pub id_of : Document Task → TaskId
id_of t = (t.fields.user_id, t.id)

abbrev pub task_ids : List (Document Task) → List TaskId
task_ids tasks = map id_of tasks

Member-old :
    (x : TaskId) (tasks : List (Document Task)) (t : Document Task)
    → Member x (task_ids tasks)
    → Member x (task_ids (tasks ++ t ∷ []))
Member-old x [] t m = absurd m
Member-old x (y ∷ ys) t (inl e) = inl e
Member-old x (y ∷ ys) t (inr m) = inr (Member-old x ys t m)

Member-new :
    (tasks : List (Document Task)) (t : Document Task)
    → Member (id_of t) (task_ids (tasks ++ t ∷ []))
Member-new [] t = inl refl
Member-new (y ∷ ys) t = inr (Member-new ys t)

Member-either :
    (x : TaskId) (tasks : List (Document Task)) (t : Document Task)
    → Member x (task_ids (tasks ++ t ∷ []))
    → Member x (task_ids tasks) ⊎ (x ≡ id_of t)
Member-either x [] t (inl e) = inr e
Member-either x [] t (inr m) = absurd m
Member-either x (y ∷ ys) t (inl e) = inl (inl e)
Member-either x (y ∷ ys) t (inr m) = elim (Member-either x ys t m) [
  | inl old ↦ inl (inr old)
  | inr new ↦ inr new
]

All-last {κ} :
    {A : Type 0} (P : A → Type κ) (xs : List A) (a : A) → All P xs → P a → All P (xs ++ a ∷ [])
All-last P [] a h p = (p, tt)
All-last P (x ∷ xs) a (q, h) p = (q, All-last P xs a h p)

All-end {κ} : {A : Type 0} (P : A → Type κ) (xs : List A) (a : A) → All P (xs ++ a ∷ []) → P a
All-end P [] a (p, h) = p
All-end P (x ∷ xs) a (q, h) = All-end P xs a h

All-start {κ} :
    {A : Type 0} (P : A → Type κ) (xs : List A) (a : A) → All P (xs ++ a ∷ []) → All P xs
All-start P [] a h = tt
All-start P (x ∷ xs) a (q, h) = (q, All-start P xs a h)

lookup-append_some :
    (i : String) (rows more : List (Document Outbox)) (o : Outbox)
    → lookup i rows ≡ some o
    → lookup i (rows ++ more) ≡ some o
unfolding lookup
lookup-append_some i [] more o h = absurd (cc)
lookup-append_some i (x ∷ xs) more o h = ground (arith, lookup-append_some i xs more o)

lookup-AreApart :
    (rows : List (Document Outbox)) (row : Document Outbox)
    → AreApart (rows ++ row ∷ [])
    → lookup row.id (rows ++ row ∷ []) ≡ some row.fields
unfolding lookup
lookup-AreApart [] row h = ground (arith, eq_iff row.id row.id)
lookup-AreApart (x ∷ xs) row (others, apart) =
    let other : (x.id == row.id) ≡ false =
      All-end (λ (d : Document Outbox). (x.id == d.id) ≡ false) xs row others in
    rw other (lookup-AreApart xs row apart)

AreApart-start :
    (rows : List (Document Outbox)) (row : Document Outbox)
    → AreApart (rows ++ row ∷ [])
    → AreApart rows
AreApart-start [] row h = tt
AreApart-start (x ∷ xs) row (others, apart) = (
  All-start (λ (d : Document Outbox). (x.id == d.id) ≡ false) xs row others,
  AreApart-start xs row apart,
)

-- Identifiers as MongoDB gives them: no two documents of a collection have one, and none is empty.
pub record HasIds (tasks : List (Document Task)) (rows : List (Document Outbox)) : Type 0 where
  pub rows_apart : AreApart rows
  pub tasks_apart : IsDistinct (task_ids tasks)
  pub ids_given : All (λ t. truthy t.id ≡ true) tasks

-- Tasks and rows belong together, over a log: each task has a row that is not failed, each row is of a
-- task, completed rows are in the log, each message there is of a task, and each task has a user.
pub record Matched (log : List Message) (tasks : List (Document Task))
    (rows : List (Document Outbox)) : Type 0 where
  pub alive : AreAlive (task_ids tasks) rows
  pub known : All (λ d. Member (task_of (message_of d.fields)) (task_ids tasks)) rows
  pub published : All (λ d. Published log d.fields) rows
  pub logged : All (λ m. Member (task_of m) (task_ids tasks)) log
  pub owned_by : All (λ t. truthy t.fields.user_id ≡ true) tasks

-- Requests to create tasks, one after another.
unfoldable pub creates : (D : Database) → List TaskBody → D.State → D.State
creates D [] s = s
creates D (body ∷ bodies) s = creates D bodies (create D body s).1

module _ (D : Database) (L : Service.IsLawful D) (log : List Message) where
  abbrev pub Fits : D.State → Type 0
  Fits w = Matched log (D.tasks w) (D.outbox w)

  task_of-task_created :
      (body : TaskBody) (s w : D.State) (t : Stored D body s w)
      → task_of (message_of t.row.fields) ≡ id_of t.task
  task_of-task_created body s w t =
      let (user, _, _) = task_document-some body t.task.fields t.fields in
      ap (λ o. task_of (message_of o)) t.event ∙ ap (λ u. (text_of u, t.task.id)) user

  Stored-Fits :
      (body : TaskBody) (s w : D.State)
      → AreApart (D.outbox w)
      → Stored D body s w
      → Fits s
      → Fits w
  Stored-Fits body s w apart t m =
      let is = task_of-task_created body s w t in
      let waits : t.row.fields.status ≡ pending = ap (λ (o : Outbox). o.status) t.event in
      let (_, _, user) = task_document-some body t.task.fields t.fields in
      let found = lookup-AreApart (D.outbox s) t.row (subst AreApart t.outbox apart) in
      subst (λ tasks. Matched log tasks (D.outbox w)) (sym t.tasks)
        (subst (λ rows. Matched log (D.tasks s ++ t.task ∷ []) rows) (sym t.outbox)
          (record {
            alive = λ x there. elim (Member-either x (D.tasks s) t.task there) [
              | inl old ↦
                  let (i, o, at, live, same) = m.alive x old in
                  (i, o, lookup-append_some i (D.outbox s) (t.row ∷ []) o at, live, same)
              | inr new ↦ (t.row.id, t.row.fields, found, inl waits, is ∙ sym new)
            ];
            known =
                All-last
                  (λ d.
                    Member (task_of (message_of d.fields)) (task_ids (D.tasks s ++ t.task ∷ [])))
                  (D.outbox s) t.row
                  (All-map (λ d k. Member-old (task_of (message_of d.fields)) (D.tasks s) t.task k)
                    (D.outbox s) m.known)
                  (subst (λ x. Member x (task_ids (D.tasks s ++ t.task ∷ []))) (sym is)
                    (Member-new (D.tasks s) t.task));
            published =
                All-last (λ d. Published log d.fields) (D.outbox s) t.row m.published (rw waits tt);
            logged =
                All-map (λ k there. Member-old (task_of k) (D.tasks s) t.task there) log m.logged;
            owned_by =
                All-last (λ (d : Document Task). truthy d.fields.user_id ≡ true) (D.tasks s) t.task
                  m.owned_by user;
          }))

  AllOrNothing-Fits :
      (body : TaskBody) (s w : D.State)
      → AreApart (D.outbox w)
      → AllOrNothing D body s w
      → Fits s
      → Fits w
  AllOrNothing-Fits body s w apart (inl (p, q)) m =
      subst (λ tasks. Matched log tasks (D.outbox w)) (sym p)
        (subst (λ rows. Matched log (D.tasks s) rows) (sym q) m)
  AllOrNothing-Fits body s w apart (inr t) m = Stored-Fits body s w apart t m

  Post-Fits :
      (body : TaskBody) (s : D.State) (r : Result Created × D.State)
      → AreApart (D.outbox r.1)
      → Post D L body s r
      → Fits s
      → Fits r.1
  Post-Fits body s (ok c, w) apart (t, _) m = Stored-Fits body s w apart t m
  Post-Fits body s (err e, w) apart h m = AllOrNothing-Fits body s w apart h m

  -- A request to create a task, whichever of its calls fail, keeps tasks and rows together.
  pub create-Fits :
      (body : TaskBody) (s : D.State)
      → AreApart (D.outbox (create D body s).1)
      → Fits s
      → Fits (create D body s).1
  create-Fits body s apart m =
      Post-Fits body s (create D body s) apart (create-AllOrNothing D L body s) m

  AreApart-create :
      (body : TaskBody) (s : D.State) (r : Result Created × D.State)
      → Post D L body s r
      → AreApart (D.outbox r.1)
      → AreApart (D.outbox s)
  AreApart-create body s (ok c, w) (t, _) apart =
      AreApart-start (D.outbox s) t.row (subst AreApart t.outbox apart)
  AreApart-create body s (err e, w) (inl (p, q)) apart = subst AreApart q apart
  AreApart-create body s (err e, w) (inr t) apart =
      AreApart-start (D.outbox s) t.row (subst AreApart t.outbox apart)

  AreApart-creates :
      (bodies : List TaskBody) (s : D.State)
      → AreApart (D.outbox (creates D bodies s))
      → AreApart (D.outbox s)
  unfolding creates
  AreApart-creates [] s apart = apart
  AreApart-creates (body ∷ bodies) s apart =
      AreApart-create body s (create D body s) (create-AllOrNothing D L body s)
        (AreApart-creates bodies (create D body s).1 apart)

  creates-Fits :
      (bodies : List TaskBody) (s : D.State)
      → AreApart (D.outbox (creates D bodies s))
      → Fits s
      → Fits (creates D bodies s)
  unfolding creates
  creates-Fits [] s apart m = m
  creates-Fits (body ∷ bodies) s apart m =
      creates-Fits bodies (create D body s).1 apart
        (create-Fits body s (AreApart-creates bodies (create D body s).1 apart) m)

IsNamed-Matched :
    (tasks : List (Document Task))
    → All (λ t. truthy t.fields.user_id ≡ true) tasks
    → All (λ t. truthy t.id ≡ true) tasks
    → IsNamed (task_ids tasks)
IsNamed-Matched [] user given = tt
IsNamed-Matched (t ∷ ts) (u, users) (g, given) = ((u, g), IsNamed-Matched ts users given)

module _ (D : Database) (L : Service.IsLawful D) (P : Poller.Backend) (K : Poller.IsLawful P)
    (W : IsWorking P) (B : Analytics.Backend) (M : Analytics.IsLawful B) (H : IsHealthy B) where
  -- The whole way of a task: whatever requests to create tasks come, and whichever calls of the
  -- database fail during them, let a working poller then poll the outbox, `n` times where no more
  -- than ten times `n` rows were waiting, and let Kafka deliver what is in its log in any order and as
  -- often as it likes. If tasks and rows belonged together before, and the database gives identifiers
  -- as MongoDB does, then in an analytics service that works and has not seen the tasks the counter of
  -- every user grows by the number of tasks that the user has in the database.
  pub count-creates :
      (bodies : List TaskBody) (d : D.State) (n : ℕ) (p : Poller P) (events : List EventData)
      (s : B.State) (u : String)
      → Matched (P.log p.backend) (D.tasks d) (D.outbox d)
      → HasIds (D.tasks (creates D bodies d)) (D.outbox (creates D bodies d))
      → P.events p.backend ≡ D.outbox (creates D bodies d)
      → p.is_polling ≡ false
      → pending_rows (P.events p.backend) ≤ poll_query.limit * n
      → IsDelivery (P.log (polls P n p).backend) events
      → ((x : TaskId)
          → Member x (task_ids (D.tasks (creates D bodies d)))
          → seen_in B M H s x.1 ≡ false)
      → B.count (deliver B events s) u
        ≡ B.count s u + owned u (task_ids (D.tasks (creates D bodies d)))
  count-creates bodies d n p events s u fits I rows idle few delivery new =
      let log = P.log p.backend in
      let w = creates D bodies d in
      let m : Matched log (D.tasks w) (P.events p.backend) =
        subst (λ r. Matched log (D.tasks w) r) (sym rows)
          (creates-Fits D L log bodies d I.rows_apart fits) in
      count-polls_working (task_ids (D.tasks w)) I.tasks_apart
        (IsNamed-Matched (D.tasks w) m.owned_by I.ids_given) P K W B M H n p events s u idle few
        m.alive m.published (m.known, m.logged) delivery new
