-- ===== src/Saga/Tasks.antt =====
-- The welcome task of a saga: taken back by a run that fails, and kept by one that succeeds.
use workflowhub.Prelude.{
  ◌≡◌, ◌⊎◌, ◌∙◌, sym, ap, ℕ, String, Option, none, some, List, [], ◌∷◌, ◌++◌, Document, without,
  without-append, lookup, Error, Result, ok, err, after_ind, Cases, truthy_value, new_error, inl,
  inr, Option-cases,
}
use workflowhub.Saga.{
  Services, RegisterDto, AuthResponse, UserData, WelcomeTask, WelcomeNotification, Rollback,
  delete_user, delete_task, Registered, welcome_task, undo_all, rollback, fail, notify,
  create_welcome, execute_registration_saga,
}

-- The identifier of the task that the saga is told by the answer to a creation, if any.
abbrev pub told_task : Result (Option String) → Option String
told_task (err e) = none
told_task (ok answer) = truthy_value answer

-- The user in the answer to a registration.
abbrev pub user_in : Result AuthResponse → Option UserData
user_in (err e) = none
user_in (ok answer) = answer.user

-- What the saga relies on for the tasks: an identifier that it is told is that of one new task, which
-- fits the request and which the call has added; tasks can be deleted; the other services have no
-- tasks. A creation that tells no identifier may have done anything to the tasks.
pub record KeepsTasks (S : Services) (Fits : WelcomeTask → S.Task → Type 0) : Type 0 where
  pub tasks-register : (dto : RegisterDto) (s : S.State) → S.tasks (S.register dto s).1 ≡ S.tasks s
  pub tasks-delete_user : (i : String) (s : S.State) → S.tasks (S.delete_user i s).1 ≡ S.tasks s
  pub create_saga_told :
      (t : WelcomeTask) (s : S.State) (i : String)
      → told_task (S.create_saga t s).0 ≡ some i
      → (d : Document S.Task) × (d.id ≡ i)
        × (S.tasks (S.create_saga t s).1 ≡ S.tasks s ++ d ∷ [])
        × (lookup d.id (S.tasks s) ≡ none)
        × Fits t d.fields
  pub tasks-delete_saga :
      (i : String) (s : S.State) → S.tasks (S.delete_saga i s).1 ≡ without i (S.tasks s)
  pub tasks-send_saga :
      (n : WelcomeNotification) (s : S.State) → S.tasks (S.send_saga n s).1 ≡ S.tasks s

module _ (S : Services) (number : String → Option ℕ) (Fits : WelcomeTask → S.Task → Type 0)
    (K : KeepsTasks S Fits) (s : S.State) where
  -- A successful run has one task more: the welcome task of the user that is returned. A failed run
  -- has the tasks of the start, or the saga was told no identifier by its one creation of a task, from the
  -- state after the registration, and has left the tasks as that call left them.
  abbrev pub Balanced : RegisterDto → Result Registered × S.State → Type 0
  Balanced dto =
      Cases
        (λ c w.
          (d : Document S.Task) × (i : String) × (truthy_value c.user.id ≡ some i)
          × Fits (welcome_task c.user i) d.fields
          × (S.tasks w ≡ S.tasks s ++ d ∷ []))
        (λ e w.
          (S.tasks w ≡ S.tasks s)
          ⊎ ((user : UserData) × (i : String) × (user_in (S.register dto s).0 ≡ some user)
              × (truthy_value user.id ≡ some i)
              × (told_task (S.create_saga (welcome_task user i) (S.register dto s).1).0 ≡ none)
              × (S.tasks w ≡ S.tasks (S.create_saga (welcome_task user i) (S.register dto s).1).1)))

  fail_first :
      (dto : RegisterDto) (actions : List Rollback) (e : Error) (w : S.State)
      → S.tasks (rollback S number actions w) ≡ S.tasks s
      → Balanced dto (fail S number actions e w)
  unfolding fail
  fail_first dto actions e w same = inl same

  fail_untold :
      (dto : RegisterDto) (user : UserData) (user_id : String) (e : Error)
      → user_in (S.register dto s).0 ≡ some user
      → truthy_value user.id ≡ some user_id
      → told_task (S.create_saga (welcome_task user user_id) (S.register dto s).1).0 ≡ none
      → Balanced dto (
          fail S number
            (delete_user user_id ∷ [])
            e
            (S.create_saga (welcome_task user user_id) (S.register dto s).1).1)
  unfolding fail rollback undo_all
  fail_untold dto user user_id e given named untold =
      inr (user, user_id, given, named, untold, K.tasks-delete_user user_id _)

  undo_none : (w : S.State) → S.tasks w ≡ S.tasks s → S.tasks (rollback S number [] w) ≡ S.tasks s
  unfolding rollback undo_all
  undo_none w same = same

  notify-Balanced :
      (dto : RegisterDto) (d : Document S.Task) (user : UserData) (token user_id : String)
      (w : S.State)
      → truthy_value user.id ≡ some user_id
      → Fits (welcome_task user user_id) d.fields
      → lookup d.id (S.tasks s) ≡ none
      → S.tasks w ≡ S.tasks s ++ d ∷ []
      → Balanced dto
          (notify S number (delete_user user_id ∷ delete_task d.id ∷ []) user token user_id d.id w)
  unfolding notify rollback undo_all
  notify-Balanced dto d user token user_id w has_user fits new added =
      after_ind (Balanced dto) (S.send_saga _ w) _ _
        (λ n e. (d, user_id, has_user, fits, K.tasks-send_saga _ w ∙ added))
        (λ error e. fail_first dto (delete_user user_id ∷ delete_task d.id ∷ []) error _ (
          K.tasks-delete_user user_id _
          ∙ K.tasks-delete_saga d.id _
          ∙ ap (without d.id) (K.tasks-send_saga _ w ∙ added)
          ∙ without-append d (S.tasks s) new))

  create_welcome-Balanced :
      (dto : RegisterDto) (user : UserData) (token user_id : String)
      → user_in (S.register dto s).0 ≡ some user
      → truthy_value user.id ≡ some user_id
      → Balanced dto (
          create_welcome S number
            (delete_user user_id ∷ [])
            user
            token
            user_id
            (S.register dto s).1)
  unfolding create_welcome
  create_welcome-Balanced dto user token user_id given has_user =
      let w = (S.register dto s).1 in
      let same = K.tasks-register dto s in
      let t = welcome_task user user_id in
      after_ind (Balanced dto) (S.create_saga t w) _ _
        (λ answer e. elim (Option-cases (truthy_value answer)) [
          | inl missing ↦ rw missing (
              fail_untold dto user user_id (new_error "Task creation failed: No taskId returned")
                given has_user (ap told_task e ∙ missing))
          | inr (i, there) ↦
              let (d, is, added, new, fits) = K.create_saga_told t w i (ap told_task e ∙ there) in
              rw (there ∙ ap some (sym is)) (
                notify-Balanced dto d user token user_id _ has_user fits
                  (ap (lookup d.id) (sym same) ∙ new) (added ∙ ap (λ l. l ++ d ∷ []) same))
        ])
        (λ error e. fail_untold dto user user_id error given has_user (ap told_task e))

  abbrev no_user_id : Error
  no_user_id = new_error "User creation succeeded but no userId was returned."

  pub execute_registration_saga-Balanced :
      (dto : RegisterDto) → Balanced dto (execute_registration_saga S number dto s)
  unfolding execute_registration_saga
  execute_registration_saga-Balanced dto =
      let same = K.tasks-register dto s in
      after_ind (Balanced dto) (S.register dto s) _ _
        (λ answer e. elim (Option-cases answer.user) [
          | inl no_user ↦ rw no_user (fail_first dto [] no_user_id _ (undo_none _ same))
          | inr (user, there) ↦ elim (Option-cases (truthy_value user.id)) [
            | inl no_id ↦ rw (there, no_id) (fail_first dto [] no_user_id _ (undo_none _ same))
            | inr (user_id, has_id) ↦
                rw (there, has_id)
                  (create_welcome-Balanced dto user answer.token user_id (ap user_in e ∙ there)
                    has_id)
          ]
        ])
        (λ error e. fail_first dto [] error _ (undo_none _ same))
