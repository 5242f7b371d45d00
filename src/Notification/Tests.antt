-- ===== src/Notification/Tests.antt =====
-- One collection of notifications and the keys in memory.
use workflowhub.Prelude.{
  ◌≡◌, refl, ◌∙◌, ap, ℕ, zero, suc, Error, lookup, without, String, Bool, false, not, Option, none,
  some, List, [], ◌∷◌, ◌++◌, ◌==◌, ◌||◌, Document, Result, ok, err, new_error, if◌then◌else◌,
  eq_refl,
}
use workflowhub.Notification.{
  Backend, IsLawful, Notification, NotificationData, event_key, notification_document,
  handle_task_created, process, create_notification, send_saga, delete_saga, Sent, in_app,
}
use workflowhub.Notification.Saga.{IsStore, deleted, delete_saga-send_saga}
use workflowhub.Notification.Retried.{
  IsAnswering, Attempts, deliveries, handle_task_created-deliveries,
}
use mathlib.Core.Option

record Memory : Type 0 where
  keys : String → Bool
  stored : List (Document Notification)
  failures : ℕ

abbrev stored_document : Notification → Document Notification
stored_document n = record { id = "n1"; fields = n }

-- The collection takes one notification, once the given number of creations has failed.
abbrev insert : Option Notification → Memory → Result (Option (Document Notification)) × Memory
insert none m = (err (new_error "validation"), m)
insert (some n) m = elim m.failures [
  | zero ↦ elim m.stored [
    | [] ↦ (ok (some (stored_document n)), record m { stored = stored_document n ∷ [] })
    | _ ↦ (err (new_error "full"), m)
  ]
  | suc k ↦ (err (new_error "down"), record m { failures = k })
]

abbrev removed : String → Memory → Result (Option (Document Notification)) × Memory
removed i m = (
  ok (Option.map (λ n. record { id = i; fields = n }) (lookup i m.stored)),
  record m { stored = without i m.stored },
)

abbrev memory : Backend
memory = record {
  State = Memory;
  processed = λ m k. m.keys k;
  notifications = λ m. m.stored;
  set_nx = λ k ttl m. (ok (not (m.keys k)), record m { keys = λ j. j == k || m.keys j });
  del = λ k m. (ok tt, record m { keys = λ j. if j == k then false else m.keys j });
  create = insert;
  find_by_id_and_delete = removed;
}

keys_kept :
    (n : Notification) (f : ℕ) (ds : List (Document Notification)) (ks : String → Bool) (k : String)
    → (insert (some n) (record { keys = ks; stored = ds; failures = f })).1.keys k ≡ ks k
keys_kept n zero [] ks k = refl
keys_kept n zero (d ∷ ds) ks k = refl
keys_kept n (suc f) ds ks k = refl

keys-insert : (n : Option Notification) (m : Memory) (k : String) → (insert n m).1.keys k ≡ m.keys k
keys-insert none m k = refl
keys-insert (some n) m k = keys_kept n m.failures m.stored m.keys k

inserted :
    (n : Notification) (f : ℕ) (ds : List (Document Notification)) (ks : String → Bool)
    (r : Option (Document Notification))
    → let end = insert (some n) (record { keys = ks; stored = ds; failures = f }) in
      end.0 ≡ ok r
      → (x : Document Notification) × (r ≡ some x)
        × (some n ≡ some x.fields)
        × (end.1.stored ≡ ds ++ x ∷ [])
        × (lookup x.id ds ≡ none)
unfolding lookup
inserted n zero [] ks r e = (stored_document n, cc, refl, refl, refl)
inserted n zero (d ∷ ds) ks r e = absurd (cc)
inserted n (suc f) ds ks r e = absurd (cc)

refused :
    (n : Notification) (f : ℕ) (ds : List (Document Notification)) (ks : String → Bool) (x : Error)
    → let end = insert (some n) (record { keys = ks; stored = ds; failures = f }) in
      end.0 ≡ err x → end.1.stored ≡ ds
refused n zero [] ks x e = absurd (cc)
refused n zero (d ∷ ds) ks x e = refl
refused n (suc f) ds ks x e = refl

create_ok :
    (o : Option Notification) (m : Memory) (r : Option (Document Notification))
    → (insert o m).0 ≡ ok r
    → (n : Document Notification) × (r ≡ some n)
      × (o ≡ some n.fields)
      × ((insert o m).1.stored ≡ m.stored ++ n ∷ [])
      × (lookup n.id m.stored ≡ none)
create_ok none m r e = absurd (cc)
create_ok (some n) m r e = inserted n m.failures m.stored m.keys r e

create_err :
    (o : Option Notification) (m : Memory) (x : Error)
    → (insert o m).0 ≡ err x
    → (insert o m).1.stored ≡ m.stored
create_err none m x e = refl
create_err (some n) m x e = refused n m.failures m.stored m.keys x e

fields_of :
    (i : String) (o : Option Notification)
    → Option.map
        (λ (d : Document Notification). d.fields)
        (Option.map (λ n. record { id = i; fields = n }) o)
      ≡ o
fields_of i none = refl
fields_of i (some n) = refl

memory-IsStore : IsStore memory
memory-IsStore = record {
  create_ok = create_ok;
  create_err = create_err;
  delete_ok = λ i m r e. (
    refl,
    ap (Option.map (λ (d : Document Notification). d.fields)) (cc)
        ∙ fields_of i (lookup i m.stored),
  );
}

memory-IsAnswering : IsAnswering memory
memory-IsAnswering = record {
  set_nx_works = λ k ttl m. (not (m.keys k), refl);
  del_works = λ k m. (refl, rw (eq_refl k) refl, refl);
}

memory-IsLawful : IsLawful memory
memory-IsLawful = record {
  set_nx_ok = λ k ttl m b h. (cc, rw (eq_refl k) refl);
  notifications-set_nx = λ k ttl m. refl;
  processed-create = keys-insert;
}

abbrev empty : Memory
empty = record { keys = λ k. false; stored = []; failures = 0 }

-- Two events without a task ID, to two users.
abbrev event : String → NotificationData
event user = record {
  task_id = none;
  event_id = none;
  user_id = some user;
  title = some "Report";
  message = some "A new task";
  type = some "IN_APP";
}

abbrev numbered : String → NotificationData
numbered user = record (event user) { task_id = some "t1" }

-- The database is down for the first delivery, and back for the second.
abbrev down_once : Memory
down_once = record empty { failures = 1 }

handled_second :
    (handle_task_created memory (numbered "u1") (deliveries memory (numbered "u1") 1 down_once)).0
    ≡ ok tt
unfolding handle_task_created deliveries event_key notification_document process
handled_second = refl

handle_task_created-deliveries_example :
    Attempts memory memory-IsLawful memory-IsStore memory-IsAnswering
      (numbered "u1")
      down_once
      (handle_task_created memory (numbered "u1") (deliveries memory (numbered "u1") 1 down_once))
handle_task_created-deliveries_example =
    handle_task_created-deliveries memory memory-IsLawful memory-IsStore memory-IsAnswering
      (numbered "u1") down_once 1 refl

abbrev sent : Sent
sent = record {
  message = "Notification sent successfully via Saga";
  notification = stored_document (record {
    user_id = "u1";
    task_id = "t1";
    title = "Report";
    message = "A new task";
    type = in_app;
    is_read = false;
  });
}

delete_saga-send_saga_example :
    let w = (send_saga memory (numbered "u1") empty).1 in
    ((delete_saga memory "n1" w).0 ≡ ok deleted) × ((delete_saga memory "n1" w).1.stored ≡ [])
unfolding send_saga create_notification lookup notification_document
delete_saga-send_saga_example =
    delete_saga-send_saga memory memory-IsStore (numbered "u1") empty sent (some sent.notification)
      refl refl
