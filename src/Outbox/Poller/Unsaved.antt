-- ===== src/Outbox/Poller/Unsaved.antt =====
-- A message that is published, but whose row cannot be saved at once.
use workflowhub.Prelude.{
  ◌≡◌, ◌∙◌, ap, inl, inr, ◌+◌, leb, some, arith, Member, Member-append_last, Document, lookup,
  lookup-put_eq, Error, Result, ok, err, after-ok, after-err, if◌then◌else◌,
}
use workflowhub.Outbox.{Outbox, completed, failed}
use workflowhub.Outbox.Poller.{
  Backend, IsLawful, mark_completed, mark_error, message_of, with_fields, on_error, on_published,
  process_event,
}
use workflowhub.Outbox.Poller.Rows.{log-process_event}

module _ (B : Backend) (L : IsLawful B) where
  -- A save leaves the row in the collection, whether it is answered or not.
  lookup-save :
      (d : Document Outbox) (s : B.State) (x : Outbox)
      → lookup d.id (B.events s) ≡ some x
      → (y : Outbox) × (lookup d.id (B.events (B.save d s).1) ≡ some y)
  lookup-save d s x found = elim (L.events-save d s) [
    | inl same ↦ (x, rw same found)
    | inr stored ↦ (d.fields, rw stored (lookup-put_eq d (B.events s) found))
  ]

  module _ (d : Document Outbox) (s : B.State) where
    abbrev pub sent : B.State
    sent = (B.emit d.fields.pattern d.fields.payload s).1

    abbrev pub done : Document Outbox
    done = with_fields d (mark_completed (B.now sent) d.fields)

    abbrev pub unsaved : B.State
    unsaved = (B.save done sent).1

    abbrev pub retried : Error → Document Outbox
    retried e = with_fields d (mark_error (B.now unsaved) e done.fields)

    -- If the message of a stored row is published, the save of the completed row is refused and the
    -- next save works, then the message is in the log of Kafka, the row counts two attempts, and it
    -- is stored as failed when it had been tried 23 times or more, and as completed otherwise.
    pub process_event-unsaved :
        {e : Error}
        → lookup d.id (B.events s) ≡ some d.fields
        → (B.emit d.fields.pattern d.fields.payload s).0 ≡ ok tt
        → (B.save done sent).0 ≡ err e
        → (B.save (retried e) unsaved).0 ≡ ok tt
        → (o : Outbox) × (lookup d.id (B.events (process_event B d s).1) ≡ some o)
          × Member (message_of d.fields) (B.log (process_event B d s).1)
          × (o.attempts ≡ d.fields.attempts + 2)
          × (o.status ≡ (if leb 23 d.fields.attempts then failed else completed))
    unfolding process_event on_published on_error mark_error
    process_event-unsaved {e} found published refused saved =
        let o = d.fields in
        let (x, kept) = lookup-save done sent o (rw (L.events-emit o.pattern o.payload s) found) in
        let run : process_event B d s ≡ B.save (retried e) unsaved = rw (
          after-ok (B.emit o.pattern o.payload s) _ _ published,
          after-err (B.save done sent) _ _ refused,
        ) in
        (
          (retried e).fields,
          ap (λ (r : Result (Unit {0}) × B.State). lookup d.id (B.events r.1)) run
              ∙ rw (L.events-save_ok (retried e) unsaved saved)
                  (lookup-put_eq (retried e) (B.events unsaved) kept),
          rw (log-process_event B L d s) (
              rw (L.log-emit_ok o.pattern o.payload s published)
                (Member-append_last (message_of o) (B.log s))),
          ground arith,
          ground arith,
        )
