-- ===== src/Saga/Compensation.antt =====
-- A saga that fails leaves no user and no task behind.
use workflowhub.Prelude.{
  ◌≡◌, ◌⊎◌, refl, sym, ◌∙◌, ap, ℕ, String, Option, none, some, [], ◌∷◌, ◌++◌, Document, without,
  without-append, lookup, Error, Result, ok, err, after_ind, Cases, truthy_value, new_error, inl,
  inr, Option-cases,
}
use workflowhub.Saga.{
  Services, RegisterDto, AuthResponse, UserData, WelcomeTask, WelcomeNotification, delete_user,
  delete_task, Registered, undo_all, rollback, fail, notify, create_welcome,
  execute_registration_saga,
}

-- The identifier of the user that the saga is told by the answer to a registration, if any: none by
-- an error, and none by an answer without a user or with an empty identifier.
abbrev pub told_user : Result AuthResponse → Option String
told_user (err e) = none
told_user (ok answer) = elim answer.user [ none ↦ none | some user ↦ truthy_value user.id ]

-- What the saga relies on for the users: an identifier that it is told is that of one new user, which
-- the call has added; users can be deleted; the other services have no users. A registration that
-- tells no identifier, by an error or by its answer, may have done anything to the users.
pub record KeepsUsers (S : Services) : Type 0 where
  pub register_told :
      (dto : RegisterDto) (s : S.State) (i : String)
      → told_user (S.register dto s).0 ≡ some i
      → (d : Document S.User) × (d.id ≡ i)
        × (S.users (S.register dto s).1 ≡ S.users s ++ d ∷ [])
        × (lookup d.id (S.users s) ≡ none)
  pub users-delete_user :
      (i : String) (s : S.State) → S.users (S.delete_user i s).1 ≡ without i (S.users s)
  pub users-create_saga :
      (t : WelcomeTask) (s : S.State) → S.users (S.create_saga t s).1 ≡ S.users s
  pub users-delete_saga : (i : String) (s : S.State) → S.users (S.delete_saga i s).1 ≡ S.users s
  pub users-send_saga :
      (n : WelcomeNotification) (s : S.State) → S.users (S.send_saga n s).1 ≡ S.users s

module _ (S : Services) (number : String → Option ℕ) (K : KeepsUsers S) (s : S.State) where
  -- A run after a registration that told the user `d`: a failed one has the users of the start, and a
  -- successful one a user more, the one returned.
  abbrev Undone : Result Registered × S.State → Type 0
  Undone =
      Cases
        (λ c w.
          (d : Document S.User) × (S.users w ≡ S.users s ++ d ∷ [])
          × (truthy_value c.user.id ≡ some d.id))
        (λ e w. S.users w ≡ S.users s)

  -- A successful run has one user more, the one returned. A failed run has the users of the start, or
  -- the saga was told no identifier by the registration, and has left the users as that call left
  -- them.
  abbrev pub Restored : RegisterDto → Result Registered × S.State → Type 0
  Restored dto =
      Cases
        (λ c w.
          (d : Document S.User) × (S.users w ≡ S.users s ++ d ∷ [])
          × (truthy_value c.user.id ≡ some d.id))
        (λ e w.
          (S.users w ≡ S.users s)
          ⊎ ((told_user (S.register dto s).0 ≡ none) × (S.users w ≡ S.users (S.register dto s).1)))

  module _ (d : Document S.User) (new : lookup d.id (S.users s) ≡ none) where
    notify-Undone :
        (user : UserData) (token task_id : String) (w : S.State)
        → truthy_value user.id ≡ some d.id
        → S.users w ≡ S.users s ++ d ∷ []
        → Undone (
            notify S number (delete_user d.id ∷ delete_task task_id ∷ []) user token d.id task_id w)
    unfolding notify fail rollback undo_all
    notify-Undone user token task_id w has_id added =
        after_ind Undone (S.send_saga _ w) _ _ (λ n e. (d, K.users-send_saga _ w ∙ added, has_id))
          (λ error e.
            K.users-delete_user d.id _
            ∙ ap (without d.id) (K.users-delete_saga task_id _ ∙ K.users-send_saga _ w ∙ added)
            ∙ without-append d (S.users s) new)

    fail-Undone :
        (e : Error) (w : S.State)
        → S.users w ≡ S.users s ++ d ∷ []
        → Undone (fail S number (delete_user d.id ∷ []) e w)
    unfolding fail rollback undo_all
    fail-Undone e w added =
        K.users-delete_user d.id w ∙ ap (without d.id) added ∙ without-append d (S.users s) new

    create_welcome-Undone :
        (user : UserData) (token : String) (w : S.State)
        → truthy_value user.id ≡ some d.id
        → S.users w ≡ S.users s ++ d ∷ []
        → Undone (create_welcome S number (delete_user d.id ∷ []) user token d.id w)
    unfolding create_welcome
    create_welcome-Undone user token w has_id added =
        after_ind Undone (S.create_saga _ w) _ _
          (λ answer e. elim (Option-cases (truthy_value answer)) [
            | inl missing ↦ rw missing (
                fail-Undone (new_error "Task creation failed: No taskId returned") _
                  (K.users-create_saga _ w ∙ added))
            | inr (task_id, there) ↦
                rw there
                  (notify-Undone user token task_id _ has_id (K.users-create_saga _ w ∙ added))
          ])
          (λ error e. fail-Undone error _ (K.users-create_saga _ w ∙ added))

  abbrev no_user_id : Error
  no_user_id = new_error "User creation succeeded but no userId was returned."

  known-Restored : (dto : RegisterDto) (r : Result Registered × S.State) → Undone r → Restored dto r
  known-Restored dto (ok c, w) h = h
  known-Restored dto (err e, w) h = inl h

  untold-Restored :
      (dto : RegisterDto) (e : Error)
      → told_user (S.register dto s).0 ≡ none
      → Restored dto (fail S number [] e (S.register dto s).1)
  unfolding fail rollback undo_all
  untold-Restored dto e untold = inr (untold, refl)

  pub execute_registration_saga-Restored :
      (dto : RegisterDto) → Restored dto (execute_registration_saga S number dto s)
  unfolding execute_registration_saga
  execute_registration_saga-Restored dto =
      after_ind (Restored dto) (S.register dto s) _ _
        (λ answer e. elim (Option-cases answer.user) [
          | inl no_user ↦
              rw no_user (untold-Restored dto no_user_id (ap told_user e ∙ rw no_user refl))
          | inr (u, has_user) ↦ elim (Option-cases (truthy_value u.id)) [
            | inl no_id ↦
                rw (has_user, no_id)
                  (untold-Restored dto no_user_id (ap told_user e ∙ rw (has_user, no_id) refl))
            | inr (i, has_id) ↦
                let (d, is, added, new) =
                  K.register_told dto s i (ap told_user e ∙ rw (has_user, has_id) refl) in
                let named : truthy_value u.id ≡ some d.id = has_id ∙ ap some (sym is) in
                rw (has_user, named)
                  (known-Restored dto _ (create_welcome-Undone d new u answer.token _ named added))
          ]
        ])
        (λ error e. untold-Restored dto error (ap told_user e))
