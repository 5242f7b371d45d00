-- ===== src/Notification/Retried.antt =====
-- An event that is delivered until it is handled.
use workflowhub.Prelude.{
  ◌≡◌, refl, ◌∙◌, ap, ◌⊎◌, inl, inr, ℕ, zero, suc, String, Bool, true, false, Option, some, [], ◌∷◌,
  ◌++◌, Document, Result, ok, err, Error, after-ok, after-err, Result-cases,
}
use workflowhub.Notification.{
  Backend, IsLawful, Notification, NotificationData, event_key, key_ttl, notification_document,
  process, handle_task_created,
}
use workflowhub.Notification.Saga.{IsStore}

-- Redis answers every call, and gives a key back when it is told to.
pub record IsAnswering (B : Backend) : Type 0 where
  pub set_nx_works :
      (k : String) (ttl : ℕ) (s : B.State) → (b : Bool) × ((B.set_nx k ttl s).0 ≡ ok b)
  pub del_works :
      (k : String) (s : B.State)
      → ((B.del k s).0 ≡ ok tt)
        × (B.processed (B.del k s).1 k ≡ false)
        × (B.notifications (B.del k s).1 ≡ B.notifications s)

-- `n` deliveries of an event, with whatever they answer.
unfoldable pub deliveries : (B : Backend) → NotificationData → ℕ → B.State → B.State
deliveries B d zero s = s
deliveries B d (suc n) s = (handle_task_created B d (deliveries B d n s)).1

module _ (B : Backend) (L : IsLawful B) (S : IsStore B) (R : IsAnswering B)
    (d : NotificationData) where
  -- The event has not been handled, and its key is free; or it has, and its key is set.
  abbrev pub IsOpen : B.State → B.State → Type 0
  IsOpen s w = (B.processed w (event_key d) ≡ false) × (B.notifications w ≡ B.notifications s)

  abbrev pub IsHandled : B.State → B.State → Type 0
  IsHandled s w =
      (B.processed w (event_key d) ≡ true)
      × (n : Document Notification) × (notification_document d ≡ some n.fields)
      × (B.notifications w ≡ B.notifications s ++ n ∷ [])

  -- What one delivery answers and leaves.
  abbrev pub Attempts : B.State → Result (Unit {0}) × B.State → Type 0
  Attempts s r = ((r.0 ≡ ok tt) × IsHandled s r.1) ⊎ ((e : Error) × (r.0 ≡ err e) × IsOpen s r.1)

  process_made :
      (w : B.State) (r : Option (Document Notification))
      → (B.create (notification_document d) w).0 ≡ ok r
      → process B (event_key d) d w ≡ (ok tt, (B.create (notification_document d) w).1)
  unfolding process
  process_made w r e = rw (after-ok (B.create (notification_document d) w) _ _ e) refl

  process_refused :
      (w : B.State) (x : Error)
      → (B.create (notification_document d) w).0 ≡ err x
      → process B (event_key d) d w
        ≡ (err x, (B.del (event_key d) (B.create (notification_document d) w).1).1)
  unfolding process
  process_refused w x e =
      let v = (B.create (notification_document d) w).1 in
      rw (after-err (B.create (notification_document d) w) _ _ e)
        (after-ok (B.del (event_key d) v) _ _ (R.del_works (event_key d) v).0)

  process-Attempts :
      (s w : B.State)
      → B.processed w (event_key d) ≡ true
      → B.notifications w ≡ B.notifications s
      → Attempts s (process B (event_key d) d w)
  process-Attempts s w set same =
      let doc = notification_document d in
      let v = (B.create doc w).1 in
      elim (Result-cases (B.create doc w).0) [
        | inl (r, answered) ↦
            let (n, is, fields, added, new) = S.create_ok doc w r answered in
            rw (process_made w r answered) (
              inl (
                refl,
                (
                  L.processed-create doc w (event_key d) ∙ set,
                  n,
                  fields,
                  added ∙ ap (λ l. l ++ n ∷ []) same,
                ),
              ))
        | inr (x, refused) ↦
            let (_, free, kept) = R.del_works (event_key d) v in
            rw (process_refused w x refused)
              (inr (x, refl, (free, kept ∙ S.create_err doc w x refused ∙ same)))
      ]

  handle_task_created-Attempts :
      (s : B.State) → B.processed s (event_key d) ≡ false → Attempts s (handle_task_created B d s)
  unfolding handle_task_created
  handle_task_created-Attempts s free =
      let (b, answered) = R.set_nx_works (event_key d) key_ttl s in
      let (won, set) = L.set_nx_ok (event_key d) key_ttl s b answered in
      let first : b ≡ true = won ∙ rw free refl in
      rw (after-ok (B.set_nx (event_key d) key_ttl s) _ _ answered, first)
        (process-Attempts s (B.set_nx (event_key d) key_ttl s).1 set
          (L.notifications-set_nx (event_key d) key_ttl s))

  handle_task_created_seen :
      (w : B.State)
      → B.processed w (event_key d) ≡ true
      → handle_task_created B d w ≡ (ok tt, (B.set_nx (event_key d) key_ttl w).1)
  unfolding handle_task_created
  handle_task_created_seen w seen =
      let (b, answered) = R.set_nx_works (event_key d) key_ttl w in
      let (won, set) = L.set_nx_ok (event_key d) key_ttl w b answered in
      let late : b ≡ false = won ∙ rw seen refl in
      rw (after-ok (B.set_nx (event_key d) key_ttl w) _ _ answered, late) refl

  again : (s w : B.State) → IsHandled s w → Attempts s (handle_task_created B d w)
  again s w (seen, n, fields, added) =
      let (b, answered) = R.set_nx_works (event_key d) key_ttl w in
      let (won, set) = L.set_nx_ok (event_key d) key_ttl w b answered in
      rw (handle_task_created_seen w seen)
        (inl (refl, (set, n, fields, L.notifications-set_nx (event_key d) key_ttl w ∙ added)))

  since :
      (s w : B.State) (r : Result (Unit {0}) × B.State)
      → B.notifications w ≡ B.notifications s
      → Attempts w r
      → Attempts s r
  since s w r same (inl (fine, (set, n, fields, added))) =
      inl (fine, (set, n, fields, added ∙ ap (λ l. l ++ n ∷ []) same))
  since s w r same (inr (e, is, (free, kept))) = inr (e, is, (free, kept ∙ same))

  next :
      (s : B.State) (r : Result (Unit {0}) × B.State)
      → Attempts s r
      → Attempts s (handle_task_created B d r.1)
  next s r (inl (fine, handled)) = again s r.1 handled
  next s r (inr (e, is, (free, kept))) =
      since s r.1 (handle_task_created B d r.1) kept (handle_task_created-Attempts r.1 free)

  -- While Redis answers, each delivery of an event whose key was free at first does one of two things,
  -- however often the event has been delivered before and whichever creations the database refused:
  -- it answers, and then the event has been handled exactly once, its key is set and the collection
  -- has one notification more, that of the event; or it throws, and then the key is free again and
  -- the collection is as it was at first.
  pub handle_task_created-deliveries :
      (s : B.State) (n : ℕ)
      → B.processed s (event_key d) ≡ false
      → Attempts s (handle_task_created B d (deliveries B d n s))
  unfolding deliveries
  handle_task_created-deliveries s zero free = handle_task_created-Attempts s free
  handle_task_created-deliveries s (suc n) free =
      next s (handle_task_created B d (deliveries B d n s))
        (handle_task_created-deliveries s n free)
