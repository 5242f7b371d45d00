-- ===== src/Saga/Joined/Tests.antt =====
-- Services that keep at most one document each, and a registration whose last step fails.
use workflowhub.Prelude.{
  ◌≡◌, refl, ap, inl, inr, ℕ, String, ◌<>◌, false, ◌==◌, eq_iff, Option, none, some, List, [], ◌∷◌,
  ◌++◌, arith, Member, Document, lookup, without, truthy, Error, Result, ok, err, Promise, throw,
  new_error, if◌then◌else◌, Bool-cases,
}
use mathlib.Core.Option
use workflowhub.Auth.{Auth}
use workflowhub.Auth.Service
use workflowhub.Auth.Service.{payload_of, by_email}
use workflowhub.Task.{Task}
use workflowhub.Task.Service.{Database}
use workflowhub.Task.Service.Saga.{IsStore}
use workflowhub.Notification
use workflowhub.Notification.{Deletion}
use workflowhub.Saga.{RegisterDto, execute_registration_saga}
use workflowhub.Saga.Joined.{World, joined}
use workflowhub.Saga.Joined.Users
use workflowhub.Saga.Joined.Tasks
use workflowhub.Saga.Joined.AllOrNothing.{IsWhole, execute_registration_saga-IsWhole}

-- The document of a slot, if it is taken, and the two changes of a slot.
abbrev stored : {A : Type 0} → String → Option A → List (Document A)
stored i none = []
stored i (some a) = record { id = i; fields = a } ∷ []

abbrev insert : {A : Type 0} → String → Option A → Option A → Result (Document A) × Option A
insert i none s = (err (new_error "validation"), s)
insert i (some a) none = (ok (record { id = i; fields = a }), some a)
insert i (some a) (some b) = (err (new_error "full"), some b)

abbrev erase : {A : Type 0} → String → String → Option A → Result (Option (Document A)) × Option A
erase i j none = (ok none, none)
erase i j (some a) =
    if i == j then (ok (some (record { id = i; fields = a })), none) else (ok none, some a)

module _ {A : Type 0} (i : String) where
  insert_ok :
      (o s : Option A) (d : Document A)
      → (insert i o s).0 ≡ ok d
      → (o ≡ some d.fields)
        × (stored i (insert i o s).1 ≡ stored i s ++ d ∷ [])
        × (lookup d.id (stored i s) ≡ none)
  unfolding lookup
  insert_ok none s d e = absurd (cc)
  insert_ok (some a) none d e = ground arith
  insert_ok (some a) (some b) d e = absurd (cc)

  insert_err :
      (o s : Option A) (e : Error)
      → (insert i o s).0 ≡ err e
      → stored i (insert i o s).1 ≡ stored i s
  insert_err none s e h = refl
  insert_err (some a) none e h = absurd (cc)
  insert_err (some a) (some b) e h = refl

  stored-erase : (j : String) (s : Option A) → stored i (erase i j s).1 ≡ without j (stored i s)
  unfolding without
  stored-erase j none = refl
  stored-erase j (some a) = elim (Bool-cases (i == j)) [
    | inl same ↦ rw same refl
    | inr other ↦ rw other refl
  ]

  stored-named : (s : Option A) (d : Document A) → Member d (stored i s) → d.id ≡ i
  stored-named none d m = absurd m
  stored-named (some a) d (inl e) = ap (λ (x : Document A). x.id) e
  stored-named (some a) d (inr m) = absurd m

-- A token is the address of the user.
abbrev accounts : Service.Backend
accounts = record {
  State = Option Auth;
  users = stored "a0";
  find_one = λ m s. (ok (by_email m (stored "a0" s)), s);
  create = insert "a0";
  find_by_id_and_delete = erase "a0";
  hash = λ p s. (ok ("#" <> p), s);
  compare = λ p h s. (ok (("#" <> p) == h), s);
  sign = λ p s. if p.id == "a0" then (ok p.email, s) else (err (new_error "key"), s);
}

accounts-IsLawful : Service.IsLawful accounts
accounts-IsLawful = record {
  users-find_one = λ m s. refl;
  find_one_ok = λ m s r e. cc;
  users-hash = λ p s. refl;
  users-compare = λ p h s. refl;
  users-sign = λ p s. ground arith;
  create_ok = insert_ok "a0";
  create_err = insert_err "a0";
  compare-hash = λ p h s t b e f. ground (arith, eq_iff ("#" <> p) h);
}

accounts-IsReliable : Users.IsReliable accounts
accounts-IsReliable = record {
  named = λ s d m. ap truthy (stored-named "a0" s d m);
  signs = λ d s m. (d.fields.email, rw (stored-named "a0" s d m) refl);
  deletes = stored-erase "a0";
}

abbrev unused : {A : Type 0} → Promise (Option Task) A
unused = throw (new_error "no transactions")

abbrev made :
    {A : Type 0} → Result (Document A) × Option A → Result (Option (Document A)) × Option A
made (ok d, s) = (ok (some d), s)
made (err e, s) = (err e, s)

abbrev database : Database
database = record {
  State = Option Task;
  Session = Unit;
  tasks = stored "t0";
  outbox = λ s. [];
  staged_tasks = λ x s. [];
  staged_outbox = λ x s. [];
  now = λ s. 0;
  start_session = unused;
  create_task_in = λ x o. unused;
  create_outbox_in = λ x o. unused;
  commit_transaction = λ x. unused;
  abort_transaction = λ x. unused;
  end_session = λ x. unused;
  find_tasks = λ u s. (ok (stored "t0" s), s);
  create_task = λ o s. made (insert "t0" o s);
  find_task_by_id_and_delete = erase "t0";
}

create_task_ok :
    (o s : Option Task) (t : Document Task)
    → (database.create_task o s).0 ≡ ok (some t)
    → (o ≡ some t.fields)
      × (database.tasks (database.create_task o s).1 ≡ database.tasks s ++ t ∷ [])
      × (lookup t.id (database.tasks s) ≡ none)
unfolding lookup
create_task_ok none s t e = absurd (cc)
create_task_ok (some a) none t e = ground arith
create_task_ok (some a) (some b) t e = absurd (cc)

create_task_err :
    (o s : Option Task) (e : Error)
    → (database.create_task o s).0 ≡ err e
    → database.tasks (database.create_task o s).1 ≡ database.tasks s
create_task_err none s e h = refl
create_task_err (some a) none e h = absurd (cc)
create_task_err (some a) (some b) e h = refl

create_task_none :
    (o s : Option Task)
    → (database.create_task o s).0 ≡ ok none
    → database.tasks (database.create_task o s).1 ≡ database.tasks s
create_task_none none s h = refl
create_task_none (some a) none h = absurd (cc)
create_task_none (some a) (some b) h = refl

erased :
    (i : String) (s : Option Task) (r : Option (Document Task))
    → (erase "t0" i s).0 ≡ ok r
    → Option.map (λ (d : Document Task). d.fields) r ≡ lookup i (stored "t0" s)
unfolding lookup
erased i none r e = let same : r ≡ none = cc in rw same refl
erased i (some a) r e = elim (Bool-cases ("t0" == i)) [
  | inl there ↦
      let same : r ≡ some (record { id = "t0"; fields = a }) = ground arith in rw (same, there) refl
  | inr other ↦ let same : r ≡ none = ground arith in rw (same, other) refl
]

database-IsStore : IsStore database
database-IsStore = record {
  create_task_ok = create_task_ok;
  delete_ok = λ i s r e. (stored-erase "t0" i s, erased i s r e);
}

database-IsReliable : Tasks.IsReliable database
database-IsReliable = record {
  named = λ s d m. ap truthy (stored-named "t0" s d m);
  create_task_err = create_task_err;
  create_task_none = create_task_none;
  deletes = stored-erase "t0";
}

-- A notification service that is down.
abbrev down : Notification.Backend
down = record {
  State = Unit;
  processed = λ s k. false;
  notifications = λ s. [];
  set_nx = λ k ttl. throw (new_error "down");
  del = λ k. throw (new_error "down");
  create = λ n. throw (new_error "down");
  find_by_id_and_delete = λ i. throw (new_error "down");
}

abbrev as_it_is : Error → Error
as_it_is e = e

abbrev no_id : Promise (Unit {0}) Deletion
no_id = throw (new_error "no id")

abbrev no_number : String → Option ℕ
no_number s = none

abbrev empty : World accounts database down as_it_is no_id
empty = record { auth = none; tasks = none; notices = tt }

abbrev ann : RegisterDto
ann = record { name = "Ann"; email = "ann@mail.org"; password = "secret1" }

execute_registration_saga-IsWhole_example :
    IsWhole accounts database down as_it_is no_id no_number empty
      (execute_registration_saga (joined accounts database down as_it_is no_id) no_number ann empty)
execute_registration_saga-IsWhole_example =
    execute_registration_saga-IsWhole accounts database down as_it_is no_id no_number ann empty
      accounts-IsLawful accounts-IsReliable database-IsStore database-IsReliable
