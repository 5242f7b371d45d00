-- ===== src/Task/Service/Tests.antt =====
-- A database in memory, with scripted failures, and the task service over it.
use workflowhub.Prelude.{
  ◌≡◌, refl, inl, inr, ℕ, ◌+◌, nat_beq, String, Bool, true, false, Option, some, none, List, [],
  ◌∷◌, ◌++◌, arith, Document, lookup, without, Result, ok, err, new_error, if◌then◌else◌,
  Bool-cases, ◌==◌,
}
use mathlib.Core.Option
use workflowhub.Outbox.{Outbox}
use workflowhub.Task.{Task, TaskBody, task_document}
use workflowhub.Task.Service.{
  task_created, write_both, roll_back, Database, IsLawful, create, create_saga, delete_saga,
}
use workflowhub.Task.Service.Saga.{IsStore, deleted, delete_saga-create_saga}
use workflowhub.Task.Service.Atomic.{Post, create-AllOrNothing}

pub record Memory : Type 0 where
  pub tasks : List (Document Task)
  pub outbox : List (Document Outbox)
  pub staged_tasks : List (Document Task)
  pub staged_outbox : List (Document Outbox)
  pub calls : ℕ

abbrev called : Memory → Memory
called m = record m { calls = m.calls + 1 }

abbrev task_id : ℕ → String
task_id n = if nat_beq n 0 then "t0" else if nat_beq n 1 then "t1" else "t2"

-- The documents of one user.
pub of_user : String → List (Document Task) → List (Document Task)
of_user u [] = []
of_user u (t ∷ ts) = if t.fields.user_id == u then t ∷ of_user u ts else of_user u ts

abbrev insert_in : Option Task → Memory → Result (Document Task) × Memory
insert_in none m = (err (new_error "validation"), called m)
insert_in (some t) m =
    let d : Document Task = record { id = task_id m.calls; fields = t } in
    (ok d, called (record m { staged_tasks = m.staged_tasks ++ d ∷ [] }))

-- Outside of a transaction the collection takes one task.
abbrev insert : Option Task → Memory → Result (Option (Document Task)) × Memory
insert none m = (err (new_error "validation"), called m)
insert (some t) m =
    let d : Document Task = record { id = task_id m.calls; fields = t } in
    elim m.tasks [
      | [] ↦ (ok (some d), called (record m { tasks = d ∷ [] }))
      | _ ↦ (err (new_error "full"), called m)
    ]

abbrev insert_row_in : Outbox → Memory → Result (Document Outbox) × Memory
insert_row_in o m =
    let d : Document Outbox = record { id = "o1"; fields = o } in
    (ok d, called (record m { staged_outbox = m.staged_outbox ++ d ∷ [] }))

abbrev committed : Memory → Memory
committed m = record m { tasks = m.tasks ++ m.staged_tasks; outbox = m.outbox ++ m.staged_outbox }

abbrev removed : String → Memory → Option (Document Task) × Memory
removed i m = (
  Option.map (λ t. record { id = i; fields = t }) (lookup i m.tasks),
  record m { tasks = without i m.tasks },
)

-- The call with number `n` works if `works n`. A commit that is refused has taken place.
abbrev pub memory : (ℕ → Bool) → Database
memory works = record {
  State = Memory;
  Session = Unit;
  tasks = λ m. m.tasks;
  outbox = λ m. m.outbox;
  staged_tasks = λ x m. m.staged_tasks;
  staged_outbox = λ x m. m.staged_outbox;
  now = λ m. m.calls;
  start_session = λ m. (ok tt, called (record m { staged_tasks = []; staged_outbox = [] }));
  create_task_in =
      λ x o m. if works m.calls then insert_in o m else (err (new_error "down"), called m);
  create_outbox_in =
      λ x o m. if works m.calls then insert_row_in o m else (err (new_error "down"), called m);
  commit_transaction = λ x m.
      if works m.calls
      then (ok tt, called (committed m))
      else (err (new_error "lost"), called (committed m));
  abort_transaction = λ x m. (ok tt, called m);
  end_session =
      λ x m. if works m.calls then (ok tt, called m) else (err (new_error "down"), called m);
  find_tasks = λ u m. (ok (of_user u m.tasks), called m);
  create_task = λ o m. if works m.calls then insert o m else (err (new_error "down"), called m);
  find_task_by_id_and_delete = λ i m.
      if works m.calls
      then (ok (removed i m).0, called (removed i m).1)
      else (err (new_error "down"), called m);
}

module _ (works : ℕ → Bool) where
  create_task_in_ok :
      (o : Option Task) (m : Memory) (t : Document Task)
      → ((memory works).create_task_in tt o m).0 ≡ ok t
      → (o ≡ some t.fields)
        × (((memory works).create_task_in tt o m).1.staged_tasks ≡ m.staged_tasks ++ t ∷ [])
        × (((memory works).create_task_in tt o m).1.staged_outbox ≡ m.staged_outbox)
  create_task_in_ok none m t e = ground arith
  create_task_in_ok (some o) m t e = ground arith

  tasks-create_task_in :
      (o : Option Task) (m : Memory)
      → (((memory works).create_task_in tt o m).1.tasks ≡ m.tasks)
        × (((memory works).create_task_in tt o m).1.outbox ≡ m.outbox)
  tasks-create_task_in none m = ground arith
  tasks-create_task_in (some o) m = ground arith

  pub memory-IsLawful : IsLawful (memory works)
  memory-IsLawful = record {
    tasks-start_session = λ m. refl;
    outbox-start_session = λ m. refl;
    staged_tasks-start_session = λ m x e. refl;
    staged_outbox-start_session = λ m x e. refl;
    tasks-create_task_in = λ x o m. (tasks-create_task_in o m).0;
    outbox-create_task_in = λ x o m. (tasks-create_task_in o m).1;
    create_task_in_ok = λ x o m t e. create_task_in_ok o m t e;
    tasks-create_outbox_in = λ x o m. ground arith;
    outbox-create_outbox_in = λ x o m. ground arith;
    create_outbox_in_ok = λ x o m t e. ground arith;
    commit_ok = λ x m e. ground arith;
    commit_whole = λ x m. ground arith;
    tasks-abort = λ x m. refl;
    outbox-abort = λ x m. refl;
    tasks-end_session = λ x m. ground arith;
    outbox-end_session = λ x m. ground arith;
  }

abbrev pub always : ℕ → Bool
always n = true

abbrev pub empty : Memory
empty = record { tasks = []; outbox = []; staged_tasks = []; staged_outbox = []; calls = 0 }

abbrev pub body : TaskBody
body = record { title = some "Write"; description = some "a report"; user_id = some "u1" }

-- The answer to the commit, the fourth call, is lost.
abbrev lost_commit : ℕ → Bool
lost_commit n = if nat_beq n 3 then false else true

create-AllOrNothing_example :
    Post
      (memory lost_commit)
      (memory-IsLawful lost_commit)
      body
      empty
      (create (memory lost_commit) body empty)
create-AllOrNothing_example =
    create-AllOrNothing (memory lost_commit) (memory-IsLawful lost_commit) body empty

map_back :
    (i : String) (o : Option Task)
    → Option.map
        (λ (d : Document Task). d.fields)
        (Option.map (λ t. record { id = i; fields = t }) o)
      ≡ o
map_back i none = refl
map_back i (some t) = refl

module _ (works : ℕ → Bool) where
  create_ok :
      (o : Option Task) (m : Memory) (t : Document Task)
      → ((memory works).create_task o m).0 ≡ ok (some t)
      → (o ≡ some t.fields)
        × (((memory works).create_task o m).1.tasks ≡ m.tasks ++ t ∷ [])
        × (lookup t.id m.tasks ≡ none)
  unfolding lookup
  create_ok none m t e = absurd (ground arith)
  create_ok (some o) m t e = ground arith

  delete_ok :
      (i : String) (m : Memory) (r : Option (Document Task))
      → ((memory works).find_task_by_id_and_delete i m).0 ≡ ok r
      → (((memory works).find_task_by_id_and_delete i m).1.tasks ≡ without i m.tasks)
        × (Option.map (λ (d : Document Task). d.fields) r ≡ lookup i m.tasks)
  delete_ok i m r e = elim (Bool-cases (works m.calls)) [
    | inl up ↦
        let same : Option.map (λ t. record { id = i; fields = t }) (lookup i m.tasks) ≡ r =
          ground arith in
        rw up (refl, rw (← same) (map_back i (lookup i m.tasks)))
    | inr down ↦ absurd (ground arith)
  ]

  memory-IsStore : IsStore (memory works)
  memory-IsStore = record { create_task_ok = create_ok; delete_ok = delete_ok }

abbrev welcome : Document Task
welcome = record {
  id = "t0";
  fields = record { title = "Write"; description = "a report"; user_id = "u1" };
}

created-welcome :
    (create_saga (memory always) body empty).0
    ≡ ok (record { message = "Task created successfully via Saga"; task = welcome })
unfolding create_saga task_document
created-welcome = refl

delete_saga-create_saga_example :
    let w = (create_saga (memory always) body empty).1 in
    ((delete_saga (memory always) "t0" w).0 ≡ ok deleted)
    × ((delete_saga (memory always) "t0" w).1.tasks ≡ [])
unfolding lookup create_saga task_document
delete_saga-create_saga_example =
    delete_saga-create_saga (memory always) (memory-IsStore always) body empty
      (record { message = "Task created successfully via Saga"; task = welcome }) (some welcome)
      created-welcome refl

-- A creation in which every call works.
abbrev pub one_task : Document Task
one_task = record {
  id = "t1";
  fields = record { title = "Write"; description = "a report"; user_id = "u1" };
}

abbrev pub one_row : Document Outbox
one_row = record { id = "o1"; fields = task_created body one_task 2 }

pub collections-create :
    ((create (memory always) body empty).1.tasks ≡ one_task ∷ [])
    × ((create (memory always) body empty).1.outbox ≡ one_row ∷ [])
unfolding create write_both roll_back task_document
collections-create = (refl, refl)
