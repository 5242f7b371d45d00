-- ===== src/Saga/Joined/AllOrNothing.antt =====
-- A registration over the services themselves: all of it, or nothing.
use workflowhub.Prelude.{
  ◌≡◌, ◌∙◌, inl, inr, ℕ, String, Option, some, [], ◌∷◌, ◌++◌, Document, Error, Result, ok, err,
  Promise, Cases, truthy_value,
}
use workflowhub.Auth.{Auth}
use workflowhub.Auth.Service
use workflowhub.Task.{Task, task_document}
use workflowhub.Task.Fields.{task_document-some}
use workflowhub.Task.Service.{Database}
use workflowhub.Task.Service.Saga.{IsStore}
use workflowhub.Notification
use workflowhub.Notification.{Deletion}
use workflowhub.Saga.{RegisterDto, Registered, welcome_task, execute_registration_saga}
use workflowhub.Saga.Compensation.{Restored, execute_registration_saga-Restored}
use workflowhub.Saga.Tasks.{Balanced, execute_registration_saga-Balanced}
use workflowhub.Saga.Joined.{World, task_body, joined}
use workflowhub.Saga.Joined.Users
use workflowhub.Saga.Joined.Users.{joined-KeepsUsers, untold_users}
use workflowhub.Saga.Joined.Tasks
use workflowhub.Saga.Joined.Tasks.{joined-KeepsTasks, untold_tasks}

module _ (A : Service.Backend) (D : Database) (N : Notification.Backend) (wire : Error → Error)
    (delete_undefined : Promise N.State Deletion) (number : String → Option ℕ) where
  -- One user more, the one of the answer, and one task more, which is that user's; or neither.
  abbrev pub IsWhole :
      World A D N wire delete_undefined
      → Result Registered × World A D N wire delete_undefined
      → Type 0
  IsWhole s =
      Cases
        (λ c w.
          (u : Document Auth) × (t : Document Task) × (truthy_value c.user.id ≡ some u.id)
          × (t.fields.user_id ≡ u.id)
          × (A.users w.auth ≡ A.users s.auth ++ u ∷ [])
          × (D.tasks w.tasks ≡ D.tasks s.tasks ++ t ∷ []))
        (λ e w. (A.users w.auth ≡ A.users s.auth) × (D.tasks w.tasks ≡ D.tasks s.tasks))

  whole :
      (dto : RegisterDto) (s : World A D N wire delete_undefined)
      (r : Result Registered × World A D N wire delete_undefined) (L : Service.IsLawful A)
      (R : Users.IsReliable A) (K : IsStore D) (Q : Tasks.IsReliable D)
      → Restored
          (joined A D N wire delete_undefined)
          number
          (joined-KeepsUsers A D N wire delete_undefined L R)
          s
          dto
          r
      → Balanced
          (joined A D N wire delete_undefined)
          number
          (λ t x. task_document (task_body t) ≡ some x)
          (joined-KeepsTasks A D N wire delete_undefined K Q)
          s
          dto
          r
      → IsWhole s r
  whole dto s (ok c, w) L R K Q (u, added, named) (t, i, is, fits, created) =
      let (user, _, _) = task_document-some (task_body (welcome_task c.user i)) t.fields fits in
      let owner : t.fields.user_id ≡ u.id = cc in (u, t, named, owner, added, created)
  whole dto s (err e, w) L R K Q users tasks =
      let S = joined A D N wire delete_undefined in
      (
        elim users [
          | inl same ↦ same
          | inr (untold, left) ↦ left ∙ untold_users A D N wire delete_undefined L R dto s untold
        ],
        elim tasks [
          | inl same ↦ same
          | inr (user, i, _, _, untold, left) ↦
              left
              ∙ untold_tasks A D N wire delete_undefined K Q (welcome_task user i)
                  (S.register dto s).1 untold
        ],
      )

  -- A registration through the gateway is all or nothing across the services: let the gateway call the
  -- auth service and the task service themselves, each over a database in which deletions take place,
  -- refused creations add nothing and no identifier is empty, with tokens that can be signed for
  -- stored users. Then a saga that returns has added one user, the one it returns, and one task of that
  -- user, and a saga that fails, at whichever step, has left both collections as they were. The
  -- notification service may fail at any time.
  pub execute_registration_saga-IsWhole :
      (dto : RegisterDto) (s : World A D N wire delete_undefined)
      → Service.IsLawful A
      → Users.IsReliable A
      → IsStore D
      → Tasks.IsReliable D
      → IsWhole s (execute_registration_saga (joined A D N wire delete_undefined) number dto s)
  execute_registration_saga-IsWhole dto s L R K Q =
      let S = joined A D N wire delete_undefined in
      whole dto s (execute_registration_saga S number dto s) L R K Q
        (execute_registration_saga-Restored S number
          (joined-KeepsUsers A D N wire delete_undefined L R) s dto)
        (execute_registration_saga-Balanced S number (λ t x. task_document (task_body t) ≡ some x)
          (joined-KeepsTasks A D N wire delete_undefined K Q) s dto)
