-- ===== src/Outbox/Poller/Progress.antt =====
-- What a working poller gets done: every poll completes as many pending rows as its query finds.
use workflowhub.Prelude.{
  ◌≡◌, ◌≤◌, ◌<◌, ◌+◌, ◌*◌, refl, ◌∙◌, sym, ap, ◌⊎◌, inl, inr, ℕ, zero, suc, String, Bool, true,
  false, ◌==◌, eq_iff, some, List, [], ◌∷◌, arith, All, All-both, Document, lookup, put,
  lookup-put_eq, lookup-put_ne, ok, after-ok, if◌then◌else◌, Bool-cases, length,
}
use workflowhub.Outbox.{Outbox, OutboxStatus, pending, completed, failed, TaskCreated}
use workflowhub.Outbox.Poller.{
  Backend, IsLawful, Poller, poll_query, mark_completed, message_of, with_fields, on_published,
  process_event, process_events, poll_events,
}
use workflowhub.Outbox.Poller.Quarantine.{
  polls, backend-poll_outbox, poll_events-find, is_polling-polls,
}

abbrev pub is_pending : OutboxStatus → Bool
is_pending pending = true
is_pending completed = false
is_pending failed = false

-- How many rows wait.
unfoldable pub pending_rows : List (Document Outbox) → ℕ
pending_rows [] = 0
pending_rows (d ∷ ds) = (if is_pending d.fields.status then 1 else 0) + pending_rows ds

-- No two of the documents have one identifier.
abbrev pub HasOther : String → List (Document Outbox) → Type 0
HasOther i ds = All (λ d. (i == d.id) ≡ false) ds

abbrev pub AreApart : List (Document Outbox) → Type 0
AreApart [] = Unit
AreApart (d ∷ ds) = HasOther d.id ds × AreApart ds

-- Every call works, and a query answers different rows, as many as there are within its limit.
pub record IsWorking (B : Backend) : Type 0 where
  pub emit_works : (t : String) (v : TaskCreated) (s : B.State) → (B.emit t v s).0 ≡ ok tt
  pub save_works : (d : Document Outbox) (s : B.State) → (B.save d s).0 ≡ ok tt
  pub find_works :
      (s : B.State)
      → (ds : List (Document Outbox)) × ((B.find poll_query s).0 ≡ ok ds)
        × AreApart ds
        × ((pending_rows (B.events s) ≤ length ds) ⊎ (poll_query.limit ≤ length ds))

pending_rows-put :
    (d : Document Outbox) (ds : List (Document Outbox))
    → d.fields.status ≡ completed
    → pending_rows (put d ds) ≤ pending_rows ds
unfolding pending_rows put
pending_rows-put d [] done = omega arith
pending_rows-put d (x ∷ xs) done = elim (Bool-cases (x.id == d.id)) [
  | inl same ↦ rw (same, done) (omega (arith, pending_rows-put d xs done))
  | inr other ↦ rw other (omega (arith, pending_rows-put d xs done))
]

-- A row that waited no longer does.
pending_rows-put_pending :
    (d : Document Outbox) (ds : List (Document Outbox)) (o : Outbox)
    → d.fields.status ≡ completed
    → lookup d.id ds ≡ some o
    → o.status ≡ pending
    → pending_rows (put d ds) < pending_rows ds
unfolding pending_rows put lookup
pending_rows-put_pending d [] o done found waits = absurd (cc)
pending_rows-put_pending d (x ∷ xs) o done found waits = elim (Bool-cases (x.id == d.id)) [
  | inl same ↦
      let it : x.fields ≡ o = ground arith in
      let open_row : x.fields.status ≡ pending = ap (λ (r : Outbox). r.status) it ∙ waits in
      rw (same, done, open_row) (omega (arith, pending_rows-put d xs done))
  | inr other ↦ rw other (omega (arith, pending_rows-put_pending d xs o done (ground arith) waits))
]

-- A row that is looked up does not wait if none does.
status-pending_rows :
    (i : String) (ds : List (Document Outbox)) (o : Outbox)
    → pending_rows ds ≤ 0
    → lookup i ds ≡ some o
    → is_pending o.status ≡ false
unfolding pending_rows lookup
status-pending_rows i [] o none_left found = absurd (cc)
status-pending_rows i (x ∷ xs) o none_left found = elim (Bool-cases (x.id == i)) [
  | inl same ↦
      let it : x.fields ≡ o = ground arith in
      ap (λ (r : Outbox). is_pending r.status) (sym it) ∙ ground arith
  | inr other ↦ status-pending_rows i xs o (ground arith) (ground arith)
]

-- What is found: each row as it is stored, and waiting.
abbrev Stored : List (Document Outbox) → Document Outbox → Type 0
Stored rows d = (lookup d.id rows ≡ some d.fields) × (d.fields.status ≡ pending)

-- A row that was `o` still has its message, and is not failed.
abbrev pub Alive : OutboxStatus → Type 0
Alive st = (st ≡ pending) ⊎ (st ≡ completed)

abbrev pub Survives : String → Outbox → List (Document Outbox) → Type 0
Survives i o rows =
    (o' : Outbox) × (lookup i rows ≡ some o') × Alive o'.status × (message_of o' ≡ message_of o)

Stored-put :
    (d x : Document Outbox) (rows : List (Document Outbox))
    → (d.id == x.id) ≡ false
    → Stored rows x
    → Stored (put d rows) x
Stored-put d x rows other (found, waits) = (lookup-put_ne d x.id rows other ∙ found, waits)

Survives-put :
    (i : String) (o : Outbox) (now : ℕ) (d : Document Outbox) (rows : List (Document Outbox))
    → Stored rows d
    → Survives i o rows
    → Survives i o (put (with_fields d (mark_completed now d.fields)) rows)
Survives-put i o now d rows (stored, waits) (o', found, alive, same) =
    let done = with_fields d (mark_completed now d.fields) in
    elim (Bool-cases (d.id == i)) [
      | inl it ↦
          let at : d.id ≡ i = (eq_iff d.id i).0 it in
          let copy : some d.fields ≡ some o' = sym stored ∙ ap (λ j. lookup j rows) at ∙ found in
          let is : d.fields ≡ o' = cc in
          (
            mark_completed now d.fields,
            ap (λ j. lookup j (put done rows)) (sym at) ∙ lookup-put_eq done rows stored,
            inr refl,
            ap message_of is ∙ same,
          )
      | inr other ↦ (o', lookup-put_ne done i rows other ∙ found, alive, same)
    ]

module _ (B : Backend) (L : IsLawful B) (W : IsWorking B) where
  process_event_works :
      (d : Document Outbox) (s : B.State)
      → (now : ℕ) × ((process_event B d s).0 ≡ ok tt)
        × (B.events (process_event B d s).1
            ≡ put (with_fields d (mark_completed now d.fields)) (B.events s))
  unfolding process_event on_published
  process_event_works d s =
      let o = d.fields in
      let sent = B.emit o.pattern o.payload s in
      let d' = with_fields d (mark_completed (B.now sent.1) o) in
      let fine = W.save_works d' sent.1 in
      (
        B.now sent.1,
        rw (after-ok sent _ _ (W.emit_works o.pattern o.payload s))
            (rw (after-ok (B.save d' sent.1) _ _ fine) refl),
        rw (after-ok sent _ _ (W.emit_works o.pattern o.payload s)) (
            rw (after-ok (B.save d' sent.1) _ _ fine)
              (L.events-save_ok d' sent.1 fine ∙ rw (L.events-emit o.pattern o.payload s))),
      )

  process_events_step :
      (d : Document Outbox) (ds : List (Document Outbox)) (s : B.State)
      → process_events B (d ∷ ds) s ≡ process_events B ds (process_event B d s).1
  unfolding process_events
  process_events_step d ds s =
      let (now, fine, stored) = process_event_works d s in after-ok (process_event B d s) _ _ fine

  -- The loop completes every row that it is given.
  process_events_works :
      (ds : List (Document Outbox)) (s : B.State)
      → AreApart ds
      → All (Stored (B.events s)) ds
      → pending_rows (B.events (process_events B ds s).1) + length ds ≤ pending_rows (B.events s)
  unfolding process_events
  process_events_works [] s apart stored = omega arith
  process_events_works (d ∷ ds) s (others, apart) ((found, waits), stored) =
      let (now, fine, put_there) = process_event_works d s in
      let done = with_fields d (mark_completed now d.fields) in
      let rest : All (Stored (B.events (process_event B d s).1)) ds =
        rw put_there
          (All-both (λ x other at. Stored-put done x (B.events s) other at) ds others stored) in
      let one : pending_rows (B.events (process_event B d s).1) < pending_rows (B.events s) =
        rw put_there (pending_rows-put_pending done (B.events s) d.fields refl found waits) in
      rw (process_events_step d ds s) (omega (arith, one, process_events_works ds _ apart rest))

  process_events-Survives :
      (i : String) (o : Outbox) (ds : List (Document Outbox)) (s : B.State)
      → AreApart ds
      → All (Stored (B.events s)) ds
      → Survives i o (B.events s)
      → Survives i o (B.events (process_events B ds s).1)
  unfolding process_events
  process_events-Survives i o [] s apart stored h = h
  process_events-Survives i o (d ∷ ds) s (others, apart) (it, stored) h =
      let (now, fine, put_there) = process_event_works d s in
      let done = with_fields d (mark_completed now d.fields) in
      rw (process_events_step d ds s) (
        process_events-Survives i o ds _ apart
          (rw put_there
            (All-both (λ x other at. Stored-put done x (B.events s) other at) ds others stored))
          (rw put_there (Survives-put i o now d (B.events s) it h)))

  -- Ten rows less wait after a poll, or none.
  pending_rows-poll_events :
      (s : B.State) (n : ℕ)
      → pending_rows (B.events s) ≤ poll_query.limit * suc n
      → pending_rows (B.events (poll_events B s).1) ≤ poll_query.limit * n
  pending_rows-poll_events s n h =
      let (ds, answered, apart, enough) = W.find_works s in
      let stored = L.find-status poll_query s ds answered in
      let less =
        process_events_works ds (B.find poll_query s).1 apart
          (rw (L.events-find poll_query s) stored) in
      rw (poll_events-find B s ds answered) (elim enough [
        | inl all ↦ omega (arith, less, ap pending_rows (L.events-find poll_query s))
        | inr full ↦ omega (arith, less, ap pending_rows (L.events-find poll_query s))
      ])

  poll_events-Survives :
      (i : String) (o : Outbox) (s : B.State)
      → Survives i o (B.events s)
      → Survives i o (B.events (poll_events B s).1)
  poll_events-Survives i o s h =
      let (ds, answered, apart, enough) = W.find_works s in
      let stored = L.find-status poll_query s ds answered in
      rw (poll_events-find B s ds answered) (
        process_events-Survives i o ds (B.find poll_query s).1 apart
          (rw (L.events-find poll_query s) stored) (rw (L.events-find poll_query s) h))

  pending_rows-polls :
      (n m : ℕ) (p : Poller B)
      → p.is_polling ≡ false
      → pending_rows (B.events p.backend) ≤ poll_query.limit * (n + m)
      → pending_rows (B.events (polls B n p).backend) ≤ poll_query.limit * m
  unfolding polls
  pending_rows-polls zero m p idle h = omega arith
  pending_rows-polls (suc n) m p idle h =
      let before = pending_rows-polls n (suc m) p idle (omega arith) in
      rw (backend-poll_outbox B (polls B n p) (is_polling-polls B n p idle))
        (pending_rows-poll_events (polls B n p).backend m before)

  polls-Survives :
      (i : String) (o : Outbox) (n : ℕ) (p : Poller B)
      → p.is_polling ≡ false
      → Survives i o (B.events p.backend)
      → Survives i o (B.events (polls B n p).backend)
  unfolding polls
  polls-Survives i o zero p idle h = h
  polls-Survives i o (suc n) p idle h =
      rw (backend-poll_outbox B (polls B n p) (is_polling-polls B n p idle))
        (poll_events-Survives i o (polls B n p).backend (polls-Survives i o n p idle h))

  Alive-done : (st : OutboxStatus) → Alive st → is_pending st ≡ false → st ≡ completed
  Alive-done st (inl waits) h = absurd (cc (h, ap is_pending waits))
  Alive-done st (inr done) h = done

  -- If every call works, and a poll finds different rows, ten of them or all that wait, then `n` polls
  -- are enough for up to ten times `n` pending rows: a row that was pending or completed before is
  -- completed after them, with the same message.
  pub polls-Completed :
      (n : ℕ) (p : Poller B) (i : String) (o : Outbox)
      → p.is_polling ≡ false
      → pending_rows (B.events p.backend) ≤ poll_query.limit * n
      → lookup i (B.events p.backend) ≡ some o
      → Alive o.status
      → (o' : Outbox) × (lookup i (B.events (polls B n p).backend) ≡ some o')
        × (o'.status ≡ completed)
        × (message_of o' ≡ message_of o)
  polls-Completed n p i o idle few found alive =
      let (o', there, still, same) = polls-Survives i o n p idle (o, found, alive, refl) in
      let none_left = pending_rows-polls n 0 p idle (omega arith) in
      (
        o',
        there,
        Alive-done o'.status still
            (status-pending_rows i (B.events (polls B n p).backend) o' (omega arith) there),
        same,
      )
