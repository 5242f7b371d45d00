-- ===== src/Outbox/Poller/Outage.antt =====
-- What becomes of a row while Kafka is out of reach: it is tried once a poll, and quarantined after
-- 25 polls.
use workflowhub.Prelude.{
  ◌≡◌, refl, ◌∙◌, sym, ap, ◌⊎◌, inl, inr, ℕ, String, false, ◌==◌, eq_iff, some, List, [], ◌∷◌, All,
  Member, Document, lookup, put, lookup-put_eq, lookup-put_ne, Error, ok, err, after-ok, after-err,
  Bool-cases, subst₂,
}
use workflowhub.Outbox.{Outbox, pending, TaskCreated}
use workflowhub.Outbox.Poller.{
  Backend, IsLawful, poll_query, mark_error, with_fields, on_error, process_event, process_events,
}

-- Kafka refuses every message, the database answers, and the queue is short: a poll finds every
-- pending row.
pub record IsOutage (B : Backend) : Type 0 where
  pub emit_fails :
      (t : String) (v : TaskCreated) (s : B.State) → (e : Error) × ((B.emit t v s).0 ≡ err e)
  pub save_works : (d : Document Outbox) (s : B.State) → (B.save d s).0 ≡ ok tt
  pub find_works :
      (s : B.State)
      → (ds : List (Document Outbox)) × ((B.find poll_query s).0 ≡ ok ds)
        × ((d : Document Outbox)
            → lookup d.id (B.events s) ≡ some d.fields
            → d.fields.status ≡ pending
            → Member d ds)

module _ (B : Backend) (L : IsLawful B) (O : IsOutage B) where
  -- A round of the loop succeeds, and stores the row with one more failure.
  process_event_fails :
      (d : Document Outbox) (s : B.State)
      → (now : ℕ) × (e : Error) × ((process_event B d s).0 ≡ ok tt)
        × (B.events (process_event B d s).1
            ≡ put (with_fields d (mark_error now e d.fields)) (B.events s))
  unfolding process_event on_error
  process_event_fails d s =
      let o = d.fields in
      let (e, refused) = O.emit_fails o.pattern o.payload s in
      let t = (B.emit o.pattern o.payload s).1 in
      let d' = with_fields d (mark_error (B.now t) e o) in
      (
        B.now t,
        e,
        rw (after-err (B.emit o.pattern o.payload s) _ _ refused) (O.save_works d' t),
        rw (after-err (B.emit o.pattern o.payload s) _ _ refused)
            (L.events-save_ok d' t (O.save_works d' t) ∙ rw (L.events-emit o.pattern o.payload s)),
      )

  process_events_step :
      (d : Document Outbox) (ds : List (Document Outbox)) (s : B.State)
      → process_events B (d ∷ ds) s ≡ process_events B ds (process_event B d s).1
  unfolding process_events
  process_events_step d ds s =
      let (now, e, fine, stored) = process_event_fails d s in
      after-ok (process_event B d s) _ _ fine

  lookup-process_event_ne :
      (d : Document Outbox) (i : String) (s : B.State)
      → (d.id == i) ≡ false
      → lookup i (B.events (process_event B d s).1) ≡ lookup i (B.events s)
  lookup-process_event_ne d i s other =
      let (now, e, fine, stored) = process_event_fails d s in
      ap (lookup i) stored
      ∙ lookup-put_ne (with_fields d (mark_error now e d.fields)) i (B.events s) other

  -- The row `i`, which was `o`, has failed once more.
  abbrev pub Tried : String → Outbox → B.State → Type 0
  Tried i o s = (now : ℕ) × (e : Error) × (lookup i (B.events s) ≡ some (mark_error now e o))

  process_event-Tried :
      (d : Document Outbox) (s : B.State) (x : Outbox)
      → lookup d.id (B.events s) ≡ some x
      → Tried d.id d.fields (process_event B d s).1
  process_event-Tried d s x found =
      let (now, e, fine, stored) = process_event_fails d s in
      (
        now,
        e,
        ap (lookup d.id) stored
            ∙ lookup-put_eq (with_fields d (mark_error now e d.fields)) (B.events s) found,
      )

  module _ (i : String) (o : Outbox) where
    -- What is in memory under the identifier is what was stored when the poll began.
    abbrev pub Copies : List (Document Outbox) → Type 0
    Copies = All (λ d. d.id ≡ i → d.fields ≡ o)

    process_event-Tried_at :
        (d : Document Outbox) (s : B.State) (x : Outbox)
        → d.id ≡ i
        → (d.id ≡ i → d.fields ≡ o)
        → lookup i (B.events s) ≡ some x
        → Tried i o (process_event B d s).1
    process_event-Tried_at d s x same copy found =
        let t : Tried d.id d.fields (process_event B d s).1 =
          process_event-Tried d s x (rw same found) in
        subst₂ (λ j f. Tried j f (process_event B d s).1) same (copy same) t

    process_events-Tried_again :
        (ds : List (Document Outbox)) (s : B.State)
        → Copies ds
        → Tried i o s
        → Tried i o (process_events B ds s).1
    unfolding process_events
    process_events-Tried_again [] s c t = t
    process_events-Tried_again (d ∷ ds) s (copy, c) (now, e, found) =
        rw (process_events_step d ds s) (
          process_events-Tried_again ds _ c (elim (Bool-cases (d.id == i)) [
            | inl same ↦ process_event-Tried_at d s _ ((eq_iff d.id i).0 same) copy found
            | inr other ↦ (now, e, lookup-process_event_ne d i s other ∙ found)
          ]))

    pub process_events-Tried :
        (ds : List (Document Outbox)) (s : B.State)
        → Copies ds
        → lookup i (B.events s) ≡ some o
        → Member (record { id = i; fields = o }) ds
        → Tried i o (process_events B ds s).1
    process_events-Tried [] s c found m = absurd m
    process_events-Tried (d ∷ ds) s (copy, c) found m =
        rw (process_events_step d ds s) (elim (Bool-cases (d.id == i)) [
          | inl same ↦
              process_events-Tried_again ds _ c
                (process_event-Tried_at d s o ((eq_iff d.id i).0 same) copy found)
          | inr other ↦
              process_events-Tried ds _ c (lookup-process_event_ne d i s other ∙ found)
                (later m other)
        ])
      where
        later :
            (record { id = i; fields = o } ≡ d) ⊎ Member (record { id = i; fields = o }) ds
            → (d.id == i) ≡ false
            → Member (record { id = i; fields = o }) ds
        later (inl here) other =
            absurd (cc ((eq_iff d.id i).1 (sym (ap (λ (x : Document Outbox). x.id) here))))
        later (inr m) other = m

    -- A row that is not among those found is left alone.
    pub lookup-process_events_ne :
        (ds : List (Document Outbox)) (s : B.State)
        → All (λ d. (d.id == i) ≡ false) ds
        → lookup i (B.events (process_events B ds s).1) ≡ lookup i (B.events s)
    unfolding process_events
    lookup-process_events_ne [] s h = refl
    lookup-process_events_ne (d ∷ ds) s (other, h) =
        rw (process_events_step d ds s)
          (lookup-process_events_ne ds _ h ∙ lookup-process_event_ne d i s other)
