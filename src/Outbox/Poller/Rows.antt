-- ===== src/Outbox/Poller/Rows.antt =====
-- How a property of the rows survives a poll: the loop, seen by what it does to one row.
use workflowhub.Prelude.{
  ◌≡◌, ◌∙◌, inl, inr, ℕ, List, [], ◌∷◌, ◌++◌, All, All-map, All-lookup, Member, Member-append_last,
  Document, All-put, Error, Result, Promise, after_ind, if_ind, nat_beq, length,
}
use workflowhub.Outbox.{Outbox}
use workflowhub.Outbox.Poller.{
  Message, Backend, IsLawful, Poller, poll_query, mark_completed, mark_error, message_of,
  with_fields, on_error, on_published, process_event, process_events, poll_events, poll_outbox,
}

-- A property of a row, beside the log of Kafka, that the assignments of the poller keep.
pub record IsKept (P : List Message → Outbox → Type 0) : Type 0 where
  pub grow : (log : List Message) (m : Message) (o : Outbox) → P log o → P (log ++ m ∷ []) o
  pub completes :
      (log : List Message) (now : ℕ) (o : Outbox)
      → P log o
      → Member (message_of o) log
      → P log (mark_completed now o)
  pub errs :
      (log : List Message) (now : ℕ) (e : Error) (o : Outbox) → P log o → P log (mark_error now e o)

-- Every stored row has the property.
abbrev pub Holds : (B : Backend) → (List Message → Outbox → Type 0) → B.State → Type 0
Holds B P s = All (λ d. P (B.log s) d.fields) (B.events s)

-- Only the broker's client writes to the log.
module _ (B : Backend) (L : IsLawful B) where
  log-on_error :
      (d : Document Outbox) (e : Error) (s : B.State) → B.log (on_error B d e s).1 ≡ B.log s
  unfolding on_error
  log-on_error d e s = L.log-save _ s

  log-on_published : (d : Document Outbox) (s : B.State) → B.log (on_published B d s).1 ≡ B.log s
  unfolding on_published
  log-on_published d s =
      let done = with_fields d (mark_completed (B.now s) d.fields) in
      after_ind (λ (r : Result (Unit {0}) × B.State). B.log r.1 ≡ B.log s) (B.save done s) _ _
        (λ _ _. L.log-save done s) (λ x _. log-on_error done x _ ∙ L.log-save done s)

  pub log-process_event :
      (d : Document Outbox) (s : B.State)
      → B.log (process_event B d s).1 ≡ B.log (B.emit d.fields.pattern d.fields.payload s).1
  unfolding process_event
  log-process_event d s =
      let sent = B.emit d.fields.pattern d.fields.payload s in
      after_ind (λ (r : Result (Unit {0}) × B.State). B.log r.1 ≡ B.log sent.1) sent _ _
        (λ _ _. log-on_published d sent.1) (λ x _. log-on_error d x sent.1)

module _ (B : Backend) (L : IsLawful B) (P : List Message → Outbox → Type 0) (K : IsKept P) where
  abbrev HoldsAfter : Result (Unit {0}) × B.State → Type 0
  HoldsAfter r = Holds B P r.1

  -- What the broker does to a property of rows in memory and in the collection.
  emit-All :
      (o : Outbox) (s : B.State) (ds : List (Document Outbox))
      → All (λ d. P (B.log s) d.fields) ds
      → All (λ d. P (B.log (B.emit o.pattern o.payload s).1) d.fields) ds
  emit-All o s ds h = elim (L.log-emit o.pattern o.payload s) [
    | inl same ↦ rw same h
    | inr grown ↦ rw grown (All-map (λ d. K.grow (B.log s) (message_of o) d.fields) ds h)
  ]

  save-Holds :
      (d : Document Outbox) (s : B.State)
      → P (B.log s) d.fields
      → Holds B P s
      → Holds B P (B.save d s).1
  save-Holds d s p h = elim (L.events-save d s) [
    | inl same ↦ rw (L.log-save d s, same) h
    | inr stored ↦
        rw (L.log-save d s, stored) (All-put (λ x. P (B.log s) x.fields) d (B.events s) p h)
  ]

  on_error-Holds :
      (d : Document Outbox) (e : Error) (s : B.State)
      → P (B.log s) d.fields
      → Holds B P s
      → Holds B P (on_error B d e s).1
  unfolding on_error
  on_error-Holds d e s p h = save-Holds _ s (K.errs (B.log s) (B.now s) e d.fields p) h

  on_published-Holds :
      (d : Document Outbox) (s : B.State)
      → P (B.log s) d.fields
      → Member (message_of d.fields) (B.log s)
      → Holds B P s
      → Holds B P (on_published B d s).1
  unfolding on_published
  on_published-Holds d s p m h =
      let done = with_fields d (mark_completed (B.now s) d.fields) in
      let kept : P (B.log s) done.fields = K.completes (B.log s) (B.now s) d.fields p m in
      let saved : Holds B P (B.save done s).1 = save-Holds done s kept h in
      after_ind HoldsAfter (B.save done s) _ _ (λ _ _. saved)
        (λ x _. on_error-Holds done x _ (rw (L.log-save done s) kept) saved)

  process_event-Holds :
      (d : Document Outbox) (s : B.State)
      → P (B.log s) d.fields
      → Holds B P s
      → Holds B P (process_event B d s).1
  unfolding process_event
  process_event-Holds d s p h =
      let o = d.fields in
      let sent : Holds B P (B.emit o.pattern o.payload s).1 =
        rw (L.events-emit o.pattern o.payload s) (emit-All o s (B.events s) h) in
      let row : P (B.log (B.emit o.pattern o.payload s).1) o = (emit-All o s (d ∷ []) (p, tt)).0 in
      after_ind HoldsAfter (B.emit o.pattern o.payload s) _ _
        (λ _ e.
          on_published-Holds d _ row
            (rw (L.log-emit_ok o.pattern o.payload s e)
              (Member-append_last (message_of o) (B.log s)))
            sent)
        (λ x _. on_error-Holds d x _ row sent)

  process_events-Holds :
      (ds : List (Document Outbox)) (s : B.State)
      → All (λ d. P (B.log s) d.fields) ds
      → Holds B P s
      → Holds B P (process_events B ds s).1
  unfolding process_events
  process_events-Holds [] s ps h = h
  process_events-Holds (d ∷ ds) s (p, ps) h =
      let here : Holds B P (process_event B d s).1 = process_event-Holds d s p h in
      let rest : All (λ x. P (B.log (process_event B d s).1) x.fields) ds =
        rw (log-process_event B L d s) (emit-All d.fields s ds ps) in
      after_ind HoldsAfter (process_event B d s) _ _ (λ _ _. process_events-Holds ds _ rest here)
        (λ _ _. here)

  poll_events-Holds : (s : B.State) → Holds B P s → Holds B P (poll_events B s).1
  unfolding poll_events
  poll_events-Holds s h =
      let t = (B.find poll_query s).1 in
      let found : Holds B P t = rw (L.log-find poll_query s, L.events-find poll_query s) h in
      after_ind HoldsAfter (B.find poll_query s) _ _
        (λ ds e.
          if_ind (λ (m : Promise B.State (Unit {0})). Holds B P (m t).1) (nat_beq (length ds) 0)
            found
            (process_events-Holds ds t
              (rw (L.log-find poll_query s) (
                All-map (λ d (q, _). All-lookup (P (B.log s)) d.id (B.events s) d.fields h q) ds
                  (L.find-status poll_query s ds e)))
              found))
        (λ _ _. found)

  pub poll_outbox-Holds : (p : Poller B) → Holds B P p.backend → Holds B P (poll_outbox B p).backend
  unfolding poll_outbox
  poll_outbox-Holds p h =
      if_ind (λ (q : Poller B). Holds B P q.backend) p.is_polling h
        (after_ind HoldsAfter (poll_events B p.backend) _ _ (λ _ _. poll_events-Holds p.backend h)
          (λ _ _. poll_events-Holds p.backend h))
