-- ===== src/Task/Service/Saga.antt =====
-- The two operations that the registration saga calls, and what undoes what.
use workflowhub.Prelude.{
  ◌≡◌, refl, ◌∙◌, ap, inl, inr, String, ◌<>◌, true, Option, none, some, [], ◌∷◌, ◌++◌, Document,
  lookup, without, without-append, lookup-append_new, Result, ok, err, Error, after_ind, after-ok,
  without-none, Option-cases, rpc_exception,
}
use mathlib.Core.Option
use workflowhub.Task.{Task, TaskBody, task_document}
use workflowhub.Task.Service.{Database, Created, Deleted, answer_saga, create_saga, delete_saga}

-- What these operations rely on: a new document has an identifier of its own.
pub record IsStore (D : Database) : Type 0 where
  pub create_task_ok :
      (o : Option Task) (s : D.State) (t : Document Task)
      → (D.create_task o s).0 ≡ ok (some t)
      → (o ≡ some t.fields)
        × (D.tasks (D.create_task o s).1 ≡ D.tasks s ++ t ∷ [])
        × (lookup t.id (D.tasks s) ≡ none)
  pub delete_ok :
      (i : String) (s : D.State) (r : Option (Document Task))
      → (D.find_task_by_id_and_delete i s).0 ≡ ok r
      → (D.tasks (D.find_task_by_id_and_delete i s).1 ≡ without i (D.tasks s))
        × (Option.map (λ (d : Document Task). d.fields) r ≡ lookup i (D.tasks s))

abbrev pub deleted : Deleted
deleted = record { success = true; message = "Task deleted successfully" }

abbrev pub not_found : String → Error
not_found i = rpc_exception 404 ("Task with ID " <> i <> " not found for deletion")

module _ (D : Database) (i : String) (s : D.State) where
  delete_saga_some :
      (d : Document Task)
      → (D.find_task_by_id_and_delete i s).0 ≡ ok (some d)
      → delete_saga D i s ≡ (ok deleted, (D.find_task_by_id_and_delete i s).1)
  unfolding delete_saga
  delete_saga_some d e = after-ok (D.find_task_by_id_and_delete i s) _ _ e

  delete_saga_none :
      (D.find_task_by_id_and_delete i s).0 ≡ ok none
      → delete_saga D i s ≡ (err (not_found i), (D.find_task_by_id_and_delete i s).1)
  unfolding delete_saga
  delete_saga_none e = after-ok (D.find_task_by_id_and_delete i s) _ _ e

module _ (D : Database) (S : IsStore D) where
  answer_saga_ok :
      (o : Option (Document Task)) (w : D.State) (c : Created)
      → (answer_saga D o w).0 ≡ ok c
      → (o ≡ some c.task) × ((answer_saga D o w).1 ≡ w)
  answer_saga_ok none w c q = absurd (cc)
  answer_saga_ok (some t) w c q = let same : t ≡ c.task = cc in (ap some same, refl)

  pub create_saga_ok :
      (body : TaskBody) (s : D.State) (c : Created)
      → (create_saga D body s).0 ≡ ok c
      → (D.tasks (create_saga D body s).1 ≡ D.tasks s ++ c.task ∷ [])
        × (lookup c.task.id (D.tasks s) ≡ none)
        × (task_document body ≡ some c.task.fields)
  unfolding create_saga
  create_saga_ok body s c =
      after_ind
        (λ (r : Result Created × D.State).
          r.0 ≡ ok c
          → (D.tasks r.1 ≡ D.tasks s ++ c.task ∷ [])
            × (lookup c.task.id (D.tasks s) ≡ none)
            × (task_document body ≡ some c.task.fields))
        (D.create_task (task_document body) s) _ _
        (λ o e q.
          let w = (D.create_task (task_document body) s).1 in
          let (is, same) = answer_saga_ok o w c q in
          let (fields, added, new) =
            S.create_task_ok (task_document body) s c.task (e ∙ ap ok is) in
          (ap D.tasks same ∙ added, new, fields))
        (λ x e q. absurd (cc))

  -- What the saga created it can take back: if the creation returns a task and the database answers
  -- the deletion by its identifier, the deletion succeeds and the collection is as it was before.
  pub delete_saga-create_saga :
      (body : TaskBody) (s : D.State) (c : Created) (r : Option (Document Task))
      → (create_saga D body s).0 ≡ ok c
      → (D.find_task_by_id_and_delete c.task.id (create_saga D body s).1).0 ≡ ok r
      → let (answer, end) = delete_saga D c.task.id (create_saga D body s).1 in
        (answer ≡ ok deleted) × (D.tasks end ≡ D.tasks s)
  delete_saga-create_saga body s c r created answered =
      let (added, new, _) = create_saga_ok body s c created in
      let w = (create_saga D body s).1 in
      let (gone, was) = S.delete_ok c.task.id w r answered in
      let there : lookup c.task.id (D.tasks w) ≡ some c.task.fields =
        ap (lookup c.task.id) added ∙ lookup-append_new c.task (D.tasks s) new in
      let back : D.tasks (D.find_task_by_id_and_delete c.task.id w).1 ≡ D.tasks s =
        gone ∙ ap (without c.task.id) added ∙ without-append c.task (D.tasks s) new in
      elim (Option-cases r) [
        | inl none_left ↦ absurd (cc)
        | inr (d, one) ↦ rw (delete_saga_some D c.task.id w d (answered ∙ ap ok one)) (refl, back)
      ]

  -- The deletion of a task that is not there is answered by an error with status 404, and changes
  -- nothing in the collection.
  pub delete_saga_missing :
      (i : String) (s : D.State) (r : Option (Document Task))
      → lookup i (D.tasks s) ≡ none
      → (D.find_task_by_id_and_delete i s).0 ≡ ok r
      → let (answer, end) = delete_saga D i s in
        (answer ≡ err (not_found i)) × (D.tasks end ≡ D.tasks s)
  delete_saga_missing i s r missing answered =
      let (gone, was) = S.delete_ok i s r answered in
      elim (Option-cases r) [
        | inl empty ↦
            rw (delete_saga_none D i s (answered ∙ ap ok empty))
              (refl, gone ∙ without-none i (D.tasks s) missing)
        | inr (d, one) ↦ absurd (cc)
      ]
