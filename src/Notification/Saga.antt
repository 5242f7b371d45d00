-- ===== src/Notification/Saga.antt =====
-- The two operations that the registration saga calls.
use workflowhub.Prelude.{
  ◌≡◌, refl, ◌∙◌, ap, inl, inr, String, true, Option, none, some, [], ◌∷◌, ◌++◌, Document, lookup,
  without, without-append, lookup-append_new, Result, ok, err, Error, after-ok, after-err,
  Result-cases, Cases, Cases-ok, Option-cases,
}
use mathlib.Core.Option
use workflowhub.Notification.{
  Backend, Notification, NotificationData, Sent, Deletion, notification_document,
  create_notification, delete_notification, send_saga, delete_saga, rpc_error,
}

-- What the collection of notifications promises: a creation adds one document with an identifier of its
-- own, or is refused and adds none.
pub record IsStore (B : Backend) : Type 0 where
  pub create_ok :
      (o : Option Notification) (s : B.State) (r : Option (Document Notification))
      → (B.create o s).0 ≡ ok r
      → (n : Document Notification) × (r ≡ some n)
        × (o ≡ some n.fields)
        × (B.notifications (B.create o s).1 ≡ B.notifications s ++ n ∷ [])
        × (lookup n.id (B.notifications s) ≡ none)
  pub create_err :
      (o : Option Notification) (s : B.State) (e : Error)
      → (B.create o s).0 ≡ err e
      → B.notifications (B.create o s).1 ≡ B.notifications s
  pub delete_ok :
      (i : String) (s : B.State) (r : Option (Document Notification))
      → (B.find_by_id_and_delete i s).0 ≡ ok r
      → (B.notifications (B.find_by_id_and_delete i s).1 ≡ without i (B.notifications s))
        × (Option.map (λ (d : Document Notification). d.fields) r ≡ lookup i (B.notifications s))

-- The answer to a deletion.
abbrev pub deleted : Deletion
deleted = record { success = true; message = "Notification deleted successfully" }

module _ (B : Backend) where
  create_notification_made :
      (d : NotificationData) (s : B.State) (n : Document Notification)
      → (B.create (notification_document d) s).0 ≡ ok (some n)
      → create_notification B d s ≡ (ok n, (B.create (notification_document d) s).1)
  unfolding create_notification
  create_notification_made d s n e = after-ok (B.create (notification_document d) s) _ _ e

  create_notification_refused :
      (d : NotificationData) (s : B.State) (x : Error)
      → (B.create (notification_document d) s).0 ≡ err x
      → create_notification B d s ≡ (err x, (B.create (notification_document d) s).1)
  unfolding create_notification
  create_notification_refused d s x e = after-err (B.create (notification_document d) s) _ _ e

  delete_saga_found :
      (i : String) (s : B.State) (d : Document Notification)
      → (B.find_by_id_and_delete i s).0 ≡ ok (some d)
      → delete_saga B i s ≡ (ok deleted, (B.find_by_id_and_delete i s).1)
  unfolding delete_saga delete_notification
  delete_saga_found i s d e = rw (after-ok (B.find_by_id_and_delete i s) _ _ e) refl

  send_saga_made :
      (d : NotificationData) (s : B.State) (n : Document Notification)
      → (B.create (notification_document d) s).0 ≡ ok (some n)
      → send_saga B d s ≡ (
        ok (record { message = "Notification sent successfully via Saga"; notification = n }),
        (B.create (notification_document d) s).1,
      )
  unfolding send_saga
  send_saga_made d s n e = rw (create_notification_made d s n e) refl

  send_saga_refused :
      (d : NotificationData) (s : B.State) (x : Error)
      → (B.create (notification_document d) s).0 ≡ err x
      → send_saga B d s ≡ (
        err (rpc_error 500 "Notification creation failed in Saga" x),
        (B.create (notification_document d) s).1,
      )
  unfolding send_saga
  send_saga_refused d s x e = rw (create_notification_refused d s x e) refl

module _ (B : Backend) (S : IsStore B) where
  -- A message that is answered has added the notification in the answer, and a refused one nothing.
  abbrev pub Sends : NotificationData → B.State → Result Sent × B.State → Type 0
  Sends d s =
      Cases
        (λ c w.
          (notification_document d ≡ some c.notification.fields)
          × (B.notifications w ≡ B.notifications s ++ c.notification ∷ [])
          × (lookup c.notification.id (B.notifications s) ≡ none))
        (λ e w. B.notifications w ≡ B.notifications s)

  pub send_saga-Sends : (d : NotificationData) (s : B.State) → Sends d s (send_saga B d s)
  send_saga-Sends d s = elim (Result-cases (B.create (notification_document d) s).0) [
    | inl (r, answered) ↦
        let (n, is, fields, added, new) = S.create_ok (notification_document d) s r answered in
        rw (send_saga_made B d s n (answered ∙ ap ok is)) (fields, added, new)
    | inr (x, refused) ↦
        rw (send_saga_refused B d s x refused) (S.create_err (notification_document d) s x refused)
  ]

  -- What a message of the saga has created, its compensation takes back: if the notification was sent,
  -- and the database answers the deletion by the identifier in the answer, then the deletion
  -- succeeds and the collection is as it was before the message.
  pub delete_saga-send_saga :
      (d : NotificationData) (s : B.State) (c : Sent) (r : Option (Document Notification))
      → (send_saga B d s).0 ≡ ok c
      → (B.find_by_id_and_delete c.notification.id (send_saga B d s).1).0 ≡ ok r
      → let (answer, end) = delete_saga B c.notification.id (send_saga B d s).1 in
        (answer ≡ ok deleted) × (B.notifications end ≡ B.notifications s)
  delete_saga-send_saga d s c r sent answered =
      let w = (send_saga B d s).1 in
      let i = c.notification.id in
      let (_, added, new) = Cases-ok _ _ (send_saga B d s) c (send_saga-Sends d s) sent in
      let (gone, was) = S.delete_ok i w r answered in
      let there : lookup i (B.notifications w) ≡ some c.notification.fields =
        ap (lookup i) added ∙ lookup-append_new c.notification (B.notifications s) new in
      let back : B.notifications (B.find_by_id_and_delete i w).1 ≡ B.notifications s =
        gone ∙ ap (without i) added ∙ without-append c.notification (B.notifications s) new in
      elim (Option-cases r) [
        | inl none_left ↦ absurd (cc)
        | inr (x, one) ↦ rw (delete_saga_found B i w x (answered ∙ ap ok one)) (refl, back)
      ]
