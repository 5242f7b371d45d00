-- ===== src/Saga/Joined/Users.antt =====
-- What the auth service, the task service and the notification service keep of what the saga relies on.
use workflowhub.Prelude.{
  ◌≡◌, refl, ◌∙◌, ap, sym, subst, inl, inr, String, true, none, some, [], ◌∷◌, ◌++◌, Member,
  Member-append_last, Document, lookup, without, truthy, truthy_value, Error, Result, ok, err,
  Promise, after_ind, Option-cases, Result-cases, Cases-ok, Cases-err,
}
use workflowhub.Auth.{Auth}
use workflowhub.Auth.Service
use workflowhub.Auth.Service.{payload_of, register, delete_user}
use workflowhub.Auth.Service.Register.{register-Registers, register-Clean}
use workflowhub.Auth.Controller.{to_response, grpc_register, grpc_delete_user}
use workflowhub.Task.Service.{Database}
use workflowhub.Notification
use workflowhub.Notification.{Deletion}
use workflowhub.Saga.{Services, RegisterDto, AuthResponse, UserData}
use workflowhub.Saga.Compensation.{KeepsUsers, told_user}
use workflowhub.Saga.Joined.{body_of, answer_of, carried, joined}

-- What is asked of the auth service beside its laws: no identifier is empty, tokens can be signed
-- for stored users, and a deletion takes place, whatever is answered.
pub record IsReliable (A : Service.Backend) : Type 0 where
  pub named : (s : A.State) (d : Document Auth) → Member d (A.users s) → truthy d.id ≡ true
  pub signs :
      (d : Document Auth) (s : A.State)
      → Member d (A.users s)
      → (k : String) × ((A.sign (payload_of d) s).0 ≡ ok k)
  pub deletes :
      (i : String) (s : A.State) → A.users (A.find_by_id_and_delete i s).1 ≡ without i (A.users s)

module _ {W X Y : Type 0} (wire : Error → Error) (read : X → Y) where
  pub state-carried : (r : Result X × W) → (carried wire read r).1 ≡ r.1
  state-carried (ok a, w) = refl
  state-carried (err e, w) = refl

  pub carried-ok :
      (r : Result X × W) (b : Y)
      → (carried wire read r).0 ≡ ok b
      → (a : X) × (r.0 ≡ ok a) × (read a ≡ b)
  carried-ok (ok a, w) b h = (a, refl, cc)
  carried-ok (err e, w) b h = absurd (cc)

  pub carried-err :
      (r : Result X × W) (e : Error) → (carried wire read r).0 ≡ err e → (x : Error) × (r.0 ≡ err x)
  carried-err (ok a, w) e h = absurd (cc)
  carried-err (err x, w) e h = (x, refl)

pub truthy_value-some : (i : String) → truthy i ≡ true → truthy_value (some i) ≡ some i
truthy_value-some i h = rw h

module _ (A : Service.Backend) (R : IsReliable A) (i : String) (s : A.State) where
  delete_user-state : (delete_user A i s).1 ≡ (A.find_by_id_and_delete i s).1
  delete_user-state =
      after_ind (λ (r : Result Service.Deletion × A.State). r.1 ≡ (A.find_by_id_and_delete i s).1)
        (A.find_by_id_and_delete i s) _ _
        (λ found _. elim (Option-cases found) [
          | inl none_left ↦ rw none_left refl
          | inr (d, there) ↦ rw there refl
        ])
        (λ _ _. refl)

  users-delete : A.users (grpc_delete_user A i s).1 ≡ without i (A.users s)
  users-delete =
      ap A.users (
        state-carried (λ x. x) (λ (r : Service.Deletion). record { message = r.message })
          (delete_user A i s)
        ∙ delete_user-state)
      ∙ R.deletes i s

module _ (A : Service.Backend) (D : Database) (N : Notification.Backend) (wire : Error → Error)
    (delete_undefined : Promise N.State Deletion) (L : Service.IsLawful A) (R : IsReliable A) where
  abbrev S : Services
  S = joined A D N wire delete_undefined

  register_ok :
      (dto : RegisterDto) (s : S.State) (r : AuthResponse)
      → (S.register dto s).0 ≡ ok r
      → (d : Document Auth) × (u : UserData) × (r.user ≡ some u)
        × (truthy_value u.id ≡ some d.id)
        × (S.users (S.register dto s).1 ≡ S.users s ++ d ∷ [])
        × (lookup d.id (S.users s) ≡ none)
  register_ok dto s r e =
      let done = register A (body_of dto) s.auth in
      let (a, answered, read) =
        carried-ok wire answer_of (grpc_register A (body_of dto) s.auth) r e in
      let (c, returned, shown) = carried-ok (λ x. x) to_response done a answered in
      let (added, same) =
        Cases-ok _ _ done c (register-Registers A L (body_of dto) s.auth) returned in
      let end : A.users (grpc_register A (body_of dto) s.auth).1
          ≡ A.users s.auth ++ added.user ∷ [] =
        ap A.users (state-carried (λ x. x) to_response done) ∙ added.users in
      let there : Member added.user (A.users done.1) =
        subst (Member added.user) (sym added.users)
          (Member-append_last added.user (A.users s.auth)) in
      (
        added.user,
        record { id = some c.user.id; name = c.user.fields.name; email = c.user.fields.email },
        ap (λ (x : AuthResponse). x.user) (sym read ∙ ap answer_of (sym shown)),
        ap (λ (x : Document Auth). truthy_value (some x.id)) (sym same)
            ∙ truthy_value-some added.user.id (R.named done.1 added.user there),
        ap A.users (state-carried wire answer_of (grpc_register A (body_of dto) s.auth)) ∙ end,
        added.new,
      )

  register_err :
      (dto : RegisterDto) (s : S.State) (e : Error)
      → (S.register dto s).0 ≡ err e
      → S.users (S.register dto s).1 ≡ S.users s
  register_err dto s e h =
      let done = register A (body_of dto) s.auth in
      let (x, refused) = carried-err wire answer_of (grpc_register A (body_of dto) s.auth) e h in
      let (y, thrown) = carried-err (λ x. x) to_response done x refused in
      ap A.users (
        state-carried wire answer_of (grpc_register A (body_of dto) s.auth)
        ∙ state-carried (λ x. x) to_response done)
      ∙ Cases-err _ _ done y (register-Clean A L R.signs (body_of dto) s.auth) thrown

  register_told :
      (dto : RegisterDto) (s : S.State) (i : String)
      → told_user (S.register dto s).0 ≡ some i
      → (d : Document Auth) × (d.id ≡ i)
        × (S.users (S.register dto s).1 ≡ S.users s ++ d ∷ [])
        × (lookup d.id (S.users s) ≡ none)
  register_told dto s i told = elim (Result-cases (S.register dto s).0) [
    | inl (r, answered) ↦
        let (d, u, has_user, has_id, added, new) = register_ok dto s r answered in
        let named : told_user (S.register dto s).0 ≡ some d.id =
          ap told_user answered ∙ rw (has_user, has_id) refl in
        let same : some d.id ≡ some i = sym named ∙ told in (d, cc, added, new)
    | inr (e, refused) ↦ absurd (cc (sym (ap told_user refused) ∙ told))
  ]

  -- Here a registration that tells no identifier has added nothing.
  pub untold_users :
      (dto : RegisterDto) (s : S.State)
      → told_user (S.register dto s).0 ≡ none
      → S.users (S.register dto s).1 ≡ S.users s
  untold_users dto s untold = elim (Result-cases (S.register dto s).0) [
    | inl (r, answered) ↦
        let (d, u, has_user, has_id, added, new) = register_ok dto s r answered in
        let named : told_user (S.register dto s).0 ≡ some d.id =
          ap told_user answered ∙ rw (has_user, has_id) refl in
        absurd (cc (sym untold ∙ named))
    | inr (e, refused) ↦ register_err dto s e refused
  ]

  pub joined-KeepsUsers : KeepsUsers S
  joined-KeepsUsers = record {
    register_told = register_told;
    users-delete_user = λ i s.
        ap A.users (state-carried wire (λ _. tt) (grpc_delete_user A i s.auth))
        ∙ users-delete A R i s.auth;
    users-create_saga = λ t s. refl;
    users-delete_saga = λ i s. refl;
    users-send_saga = λ n s. refl;
  }
