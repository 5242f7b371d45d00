-- ===== src/Task/Service/Atomic.antt =====
-- The transactional outbox: a task and its event are stored together or not at all.
use workflowhub.Prelude.{
  ◌≡◌, refl, ◌∙◌, ap, ap₂, after, pure, ◌>>◌, ◌⊎◌, inl, inr, [], ◌∷◌, ◌++◌, some, Document, Error,
  Result, ok, err, after_ind, Cases,
}
use workflowhub.Outbox.{Outbox}
use workflowhub.Task.{Task, TaskBody, task_document}
use workflowhub.Task.Service.{
  Database, IsLawful, Created, task_created, write_both, roll_back, create,
}

module _ (D : Database) (body : TaskBody) (s : D.State) where
  abbrev pub Unchanged : D.State → Type 0
  Unchanged w = (D.tasks w ≡ D.tasks s) × (D.outbox w ≡ D.outbox s)

  -- A task with the fields of the request is appended, and an outbox row that names it.
  pub record Stored (w : D.State) : Type 0 where
    pub task : Document Task
    pub row : Document Outbox
    pub at : D.State
    pub fields : task_document body ≡ some task.fields
    pub event : row.fields ≡ task_created body task (D.now at)
    pub tasks : D.tasks w ≡ D.tasks s ++ task ∷ []
    pub outbox : D.outbox w ≡ D.outbox s ++ row ∷ []

  abbrev pub AllOrNothing : D.State → Type 0
  AllOrNothing w = Unchanged w ⊎ Stored w

  keep_Stored :
      (v w : D.State) → D.tasks w ≡ D.tasks v → D.outbox w ≡ D.outbox v → Stored v → Stored w
  keep_Stored v w p q t = record {
    task = t.task;
    row = t.row;
    at = t.at;
    fields = t.fields;
    event = t.event;
    tasks = p ∙ t.tasks;
    outbox = q ∙ t.outbox;
  }

  -- A step that keeps both collections keeps each of the two.
  keep :
      (v w : D.State)
      → D.tasks w ≡ D.tasks v
      → D.outbox w ≡ D.outbox v
      → AllOrNothing v
      → AllOrNothing w
  keep v w p q (inl (a, b)) = inl (p ∙ a, q ∙ b)
  keep v w p q (inr t) = inr (keep_Stored v w p q t)

module _ (D : Database) (L : IsLawful D) (body : TaskBody) (s : D.State) where
  -- The task that the caller gets is the one that is stored.
  abbrev pub Returned : Created → D.State → Type 0
  Returned c w = (t : Stored D body s w) × (t.task ≡ c.task)

  -- After a call of the service: what it returns is stored, and what it stores is whole.
  abbrev pub Post : Result Created × D.State → Type 0
  Post = Cases Returned (λ e w. AllOrNothing D body s w)

  -- From an open session with nothing staged.
  abbrev Fresh : D.Session → D.State → Type 0
  Fresh x w = Unchanged D body s w × (D.staged_tasks x w ≡ []) × (D.staged_outbox x w ≡ [])

  -- The commit of a session that holds the task and its row.
  module _ (task : Document Task) (row : Document Outbox) (at : D.State) (x : D.Session)
      (v : D.State) where
    record Ready : Type 0 where
      base : Unchanged D body s v
      fields : task_document body ≡ some task.fields
      event : row.fields ≡ task_created body task (D.now at)
      one_task : D.staged_tasks x v ≡ task ∷ []
      one_row : D.staged_outbox x v ≡ row ∷ []

    commit-Stored :
        (w : D.State)
        → Ready
        → (D.tasks w ≡ D.tasks v ++ D.staged_tasks x v)
          × (D.outbox w ≡ D.outbox v ++ D.staged_outbox x v)
        → Stored D body s w
    commit-Stored w r (p, q) = record {
      task = task;
      row = row;
      at = at;
      fields = r.fields;
      event = r.event;
      tasks = p ∙ ap₂ ◌++◌ r.base.0 r.one_task;
      outbox = q ∙ ap₂ ◌++◌ r.base.1 r.one_row;
    }

    commit-Post :
        (c : Created) → Ready → task ≡ c.task → Post ((D.commit_transaction x >> pure c) v)
    unfolding commit-Stored
    commit-Post c r same =
        after_ind Post (D.commit_transaction x v) _ _
          (λ _ e. (commit-Stored _ r (L.commit_ok x v e), same))
          (λ error _. elim (L.commit_whole x v) [
            | inl (p, q) ↦ inl (p ∙ r.base.0, q ∙ r.base.1)
            | inr whole ↦ inr (commit-Stored _ r whole)
          ])

  write_both-Post : (x : D.Session) (w : D.State) → Fresh x w → Post (write_both D body x w)
  unfolding write_both
  write_both-Post x w ((same_tasks, same_rows), no_tasks, no_rows) =
      let doc = task_document body in
      let w₁ = (D.create_task_in x doc w).1 in
      let tasks₁ : D.tasks w₁ ≡ D.tasks s = L.tasks-create_task_in x doc w ∙ same_tasks in
      let outbox₁ : D.outbox w₁ ≡ D.outbox s = L.outbox-create_task_in x doc w ∙ same_rows in
      after_ind Post (D.create_task_in x doc w) _ _
        (λ task e.
          let (fields, staged_task, staged_none) = L.create_task_in_ok x doc w task e in
          let o = task_created body task (D.now w₁) in
          let w₂ = (D.create_outbox_in x o w₁).1 in
          let base : Unchanged D body s w₂ = (
            L.tasks-create_outbox_in x o w₁ ∙ tasks₁,
            L.outbox-create_outbox_in x o w₁ ∙ outbox₁,
          ) in
          after_ind Post (D.create_outbox_in x o w₁) _ _
            (λ row e'.
              let (event, kept, added) = L.create_outbox_in_ok x o w₁ row e' in
              commit-Post task row w₁ x w₂ _
                (record {
                  base = base;
                  fields = fields;
                  event = event;
                  one_task = kept ∙ staged_task ∙ ap (λ l. l ++ task ∷ []) no_tasks;
                  one_row = added ∙ ap (λ l. l ++ row ∷ []) (staged_none ∙ no_rows);
                })
                refl)
            (λ error _. inl base))
        (λ error _. inl (tasks₁, outbox₁))

  roll_back-Post :
      (x : D.Session) (e : Error) (v : D.State) → AllOrNothing D body s v → Post (roll_back D x e v)
  unfolding roll_back
  roll_back-Post x e v h =
      let kept =
        keep D body s v (D.abort_transaction x v).1 (L.tasks-abort x v) (L.outbox-abort x v) h in
      after_ind Post (D.abort_transaction x v) _ _ (λ _ _. kept) (λ _ _. kept)

  -- Closing the session changes neither the answer nor the collections; an error of its own wins.
  end_session-Post :
      (x : D.Session) (r : Result Created × D.State)
      → Post r
      → Post (after (D.end_session x r.1) (λ _ w. (r.0, w)) (λ e w. (err e, w)))
  unfolding keep_Stored
  end_session-Post x (ok c, w) (t, same) =
      let t' =
        keep_Stored D body s w (D.end_session x w).1 (L.tasks-end_session x w)
          (L.outbox-end_session x w) t in
      after_ind Post (D.end_session x w) _ _ (λ _ _. (t', same)) (λ _ _. inr t')
  end_session-Post x (err e, w) h =
      let h' =
        keep D body s w (D.end_session x w).1 (L.tasks-end_session x w) (L.outbox-end_session x w)
          h in
      after_ind Post (D.end_session x w) _ _ (λ _ _. h') (λ _ _. h')

  -- The `try` with its `catch`.
  caught-Post :
      (x : D.Session) (r : Result Created × D.State)
      → Post r
      → Post (after r (λ c w. (ok c, w)) (roll_back D x))
  caught-Post x (ok c, w) h = h
  caught-Post x (err e, w) h = roll_back-Post x e w h

  -- A creation that returns a task has appended that task, with the fields of the request, to the one
  -- collection, and an outbox row with its event to the other. A creation that throws, whichever
  -- calls failed, and also when the answer to the commit is lost, has appended both or left both
  -- collections as they were.
  pub create-AllOrNothing : Post (create D body s)
  unfolding create
  create-AllOrNothing =
      let w = (D.start_session s).1 in
      let base : Unchanged D body s w = (L.tasks-start_session s, L.outbox-start_session s) in
      after_ind Post (D.start_session s) _ _
        (λ x e.
          let written : Post (write_both D body x w) =
            write_both-Post x w
              (base, L.staged_tasks-start_session s x e, L.staged_outbox-start_session s x e) in
          end_session-Post x _ (caught-Post x _ written))
        (λ error _. inl base)
