-- ===== src/Saga/Joined/Tasks.antt =====
-- What the three services keep of what the saga relies on for the tasks.
use workflowhub.Prelude.{
  ◌≡◌, refl, ◌∙◌, ap, sym, subst, inl, inr, String, true, Option, none, some, [], ◌∷◌, ◌++◌, Member,
  Member-append_last, Document, lookup, without, truthy, truthy_value, Error, Result, ok, err,
  Promise, after_ind, Option-cases, Result-cases, Cases, Cases-err,
}
use workflowhub.Auth.Service
use workflowhub.Task.{Task, TaskBody, task_document}
use workflowhub.Task.Service.{Database, Deleted, create_saga, delete_saga}
use workflowhub.Task.Service.Saga.{IsStore, create_saga_ok}
use workflowhub.Task.Controller.{to_response, grpc_create_saga, grpc_delete_saga}
use workflowhub.Notification
use workflowhub.Notification.{Deletion}
use workflowhub.Saga.{Services, WelcomeTask}
use workflowhub.Saga.Tasks.{KeepsTasks, told_task}
use workflowhub.Saga.Joined.{task_body, joined}
use workflowhub.Saga.Joined.Users.{state-carried, carried-ok, carried-err, truthy_value-some}

-- What is asked of the database of tasks beside its laws: no identifier is empty, a refused creation
-- adds nothing, and a deletion takes place, whatever is answered.
pub record IsReliable (D : Database) : Type 0 where
  pub named : (s : D.State) (t : Document Task) → Member t (D.tasks s) → truthy t.id ≡ true
  pub create_task_err :
      (o : Option Task) (s : D.State) (e : Error)
      → (D.create_task o s).0 ≡ err e
      → D.tasks (D.create_task o s).1 ≡ D.tasks s
  pub create_task_none :
      (o : Option Task) (s : D.State)
      → (D.create_task o s).0 ≡ ok none
      → D.tasks (D.create_task o s).1 ≡ D.tasks s
  pub deletes :
      (i : String) (s : D.State)
      → D.tasks (D.find_task_by_id_and_delete i s).1 ≡ without i (D.tasks s)

module _ (D : Database) (R : IsReliable D) where
  create_saga-Clean :
      (body : TaskBody) (s : D.State)
      → Cases (λ c w. Unit {0}) (λ e w. D.tasks w ≡ D.tasks s) (create_saga D body s)
  unfolding create_saga
  create_saga-Clean body s =
      after_ind (Cases (λ c w. Unit {0}) (λ e w. D.tasks w ≡ D.tasks s))
        (D.create_task (task_document body) s) _ _
        (λ task is. elim (Option-cases task) [
          | inl none_made ↦ rw none_made (R.create_task_none _ s (is ∙ ap ok none_made))
          | inr (t, made) ↦ rw made tt
        ])
        (λ e refused. R.create_task_err _ s e refused)

  delete_saga-state :
      (i : String) (s : D.State) → (delete_saga D i s).1 ≡ (D.find_task_by_id_and_delete i s).1
  unfolding delete_saga
  delete_saga-state i s =
      after_ind (λ (r : Result Deleted × D.State). r.1 ≡ (D.find_task_by_id_and_delete i s).1)
        (D.find_task_by_id_and_delete i s) _ _
        (λ found _. elim (Option-cases found) [
          | inl none_left ↦ rw none_left refl
          | inr (d, there) ↦ rw there refl
        ])
        (λ _ _. refl)

module _ (A : Service.Backend) (D : Database) (N : Notification.Backend) (wire : Error → Error)
    (delete_undefined : Promise N.State Deletion) (K : IsStore D) (R : IsReliable D) where
  abbrev S : Services
  S = joined A D N wire delete_undefined

  created :
      (t : WelcomeTask) (s : S.State) (r : Option String)
      → (S.create_saga t s).0 ≡ ok r
      → (d : Document Task) × (truthy_value r ≡ some d.id)
        × (S.tasks (S.create_saga t s).1 ≡ S.tasks s ++ d ∷ [])
        × (lookup d.id (S.tasks s) ≡ none)
        × (task_document (task_body t) ≡ some d.fields)
  created t s r e =
      let done = create_saga D (task_body t) s.tasks in
      let sent = grpc_create_saga D (task_body t) s.tasks in
      let (a, answered, read) = carried-ok wire (λ x. some x.id) sent r e in
      let (c, returned, shown) = carried-ok (λ x. x) to_response done a answered in
      let (added, new, fields) = create_saga_ok D K (task_body t) s.tasks c returned in
      let there : Member c.task (D.tasks done.1) =
        subst (Member c.task) (sym added) (Member-append_last c.task (D.tasks s.tasks)) in
      (
        c.task,
        ap truthy_value (sym read ∙ ap (λ x. some x.id) (sym shown))
            ∙ truthy_value-some c.task.id (R.named done.1 c.task there),
        ap D.tasks
              (state-carried wire (λ x. some x.id) sent ∙ state-carried (λ x. x) to_response done)
            ∙ added,
        new,
        fields,
      )

  refused :
      (t : WelcomeTask) (s : S.State) (e : Error)
      → (S.create_saga t s).0 ≡ err e
      → S.tasks (S.create_saga t s).1 ≡ S.tasks s
  refused t s e h =
      let done = create_saga D (task_body t) s.tasks in
      let sent = grpc_create_saga D (task_body t) s.tasks in
      let (x, thrown) = carried-err wire (λ x. some x.id) sent e h in
      let (y, first) = carried-err (λ x. x) to_response done x thrown in
      ap D.tasks
        (state-carried wire (λ x. some x.id) sent ∙ state-carried (λ x. x) to_response done)
      ∙ Cases-err _ _ done y (create_saga-Clean D R (task_body t) s.tasks) first

  create_saga_told :
      (t : WelcomeTask) (s : S.State) (i : String)
      → told_task (S.create_saga t s).0 ≡ some i
      → (d : Document Task) × (d.id ≡ i)
        × (S.tasks (S.create_saga t s).1 ≡ S.tasks s ++ d ∷ [])
        × (lookup d.id (S.tasks s) ≡ none)
        × (task_document (task_body t) ≡ some d.fields)
  create_saga_told t s i told = elim (Result-cases (S.create_saga t s).0) [
    | inl (r, answered) ↦
        let (d, has_id, added, new, fits) = created t s r answered in
        let same : some d.id ≡ some i = sym has_id ∙ sym (ap told_task answered) ∙ told in
        (d, cc, added, new, fits)
    | inr (e, thrown) ↦ absurd (cc (sym (ap told_task thrown) ∙ told))
  ]

  -- Here a creation that tells no identifier has added nothing.
  pub untold_tasks :
      (t : WelcomeTask) (s : S.State)
      → told_task (S.create_saga t s).0 ≡ none
      → S.tasks (S.create_saga t s).1 ≡ S.tasks s
  untold_tasks t s untold = elim (Result-cases (S.create_saga t s).0) [
    | inl (r, answered) ↦
        let (d, has_id, added, new, fits) = created t s r answered in
        absurd (cc (sym untold ∙ ap told_task answered ∙ has_id))
    | inr (e, thrown) ↦ refused t s e thrown
  ]

  deleted : (i : String) (s : S.State) → S.tasks (S.delete_saga i s).1 ≡ without i (S.tasks s)
  deleted i s =
      ap D.tasks (
        state-carried wire (λ _. tt) (grpc_delete_saga D i s.tasks)
        ∙ state-carried (λ x. x)
            (λ (r : Deleted). record { success = r.success; message = r.message })
            (delete_saga D i s.tasks)
        ∙ delete_saga-state D R i s.tasks)
      ∙ R.deletes i s.tasks

  pub joined-KeepsTasks : KeepsTasks S (λ t x. task_document (task_body t) ≡ some x)
  joined-KeepsTasks = record {
    tasks-register = λ dto s. refl;
    tasks-delete_user = λ i s. refl;
    create_saga_told = create_saga_told;
    tasks-delete_saga = deleted;
    tasks-send_saga = λ n s. refl;
  }
