-- ===== src/Notification/Repeated.antt =====
-- What a repeated event does.
use workflowhub.Prelude.{
  ◌≡◌, refl, ◌∙◌, sym, subst, String, true, false, Result, ok, err, Promise, Option, Document,
  try_catch, throw, ◌>>◌, after, after_ind, Cases, if◌then◌else◌,
}
use workflowhub.Notification.{
  Backend, IsLawful, Notification, NotificationData, event_key, key_ttl, process,
  notification_document, handle_task_created,
}

module _ (B : Backend) (L : IsLawful B) where
  abbrev Processed : String → Result (Unit {0}) × B.State → Type 0
  Processed k = Cases (λ _ w. B.processed w k ≡ true) (λ _ _. Unit {0})

  created :
      (k : String) (r : Result (Option (Document Notification)) × B.State)
      → B.processed r.1 k ≡ true
      → Processed k (
          try_catch {W = B.State}
            (λ w. after r (λ _ v. (ok tt, v)) (λ e v. (err e, v)))
            (λ error. B.del k >> throw error)
            r.1)
  created k (ok n, w) h = h
  created k (err e, w) h = after_ind (Processed k) (B.del k w) _ _ (λ _ _. tt) (λ _ _. tt)

  process-Processed :
      (d : NotificationData) (k : String) (s : B.State)
      → B.processed s k ≡ true
      → Processed k (process B k d s)
  unfolding process
  process-Processed d k s h =
      created k (B.create (notification_document d) s)
        (L.processed-create (notification_document d) s k ∙ h)

  handle_task_created-Processed :
      (d : NotificationData) (s : B.State) → Processed (event_key d) (handle_task_created B d s)
  unfolding handle_task_created
  handle_task_created-Processed d s =
      after_ind (Processed (event_key d)) (B.set_nx (event_key d) key_ttl s) _ _
        (λ b e.
          let (answer, set) = L.set_nx_ok (event_key d) key_ttl s b e in
          elim b
            as (λ b. Processed (event_key d) (
              (if◌then◌else◌ {A = Promise B.State (Unit {0})} b (process B (event_key d) d)
                  (λ w. (ok tt, w)))
                (B.set_nx (event_key d) key_ttl s).1)) [
                  | true ↦ process-Processed d (event_key d) _ set
                  | false ↦ set
                ])
        (λ e h. tt)

  -- An event whose key is set adds no notification.
  handle_task_created_repeated :
      (d : NotificationData) (s : B.State)
      → B.processed s (event_key d) ≡ true
      → B.notifications (handle_task_created B d s).1 ≡ B.notifications s
  unfolding handle_task_created
  handle_task_created_repeated d s h =
      after_ind (λ (r : Result (Unit {0}) × B.State). B.notifications r.1 ≡ B.notifications s)
        (B.set_nx (event_key d) key_ttl s) _ _
        (λ b e.
          let (answer, set) = L.set_nx_ok (event_key d) key_ttl s b e in
          let no : b ≡ false = answer ∙ rw h refl in
          rw no (L.notifications-set_nx (event_key d) key_ttl s))
        (λ e g. L.notifications-set_nx (event_key d) key_ttl s)

  after_event :
      (d : NotificationData) (r : Result (Unit {0}) × B.State)
      → Processed (event_key d) r
      → r.0 ≡ ok tt
      → B.notifications (handle_task_created B d r.1).1 ≡ B.notifications r.1
  after_event d (ok u, w) p e = handle_task_created_repeated d w p
  after_event d (err x, w) p e = absurd (cc)

  -- Once an event has been handled without an error, an event with the same key adds no notification
  -- for as long as the key lives. That covers a second delivery of the event, and any two
  -- events that carry neither a task ID nor an event ID, whatever else they say.
  pub handle_task_created-Repeated :
      (d e : NotificationData) (s : B.State)
      → event_key e ≡ event_key d
      → (handle_task_created B d s).0 ≡ ok tt
      → B.notifications (handle_task_created B e (handle_task_created B d s).1).1
        ≡ B.notifications (handle_task_created B d s).1
  handle_task_created-Repeated d e s same done =
      after_event e (handle_task_created B d s)
        (subst (λ k. Processed k (handle_task_created B d s)) (sym same)
          (handle_task_created-Processed d s))
        done
