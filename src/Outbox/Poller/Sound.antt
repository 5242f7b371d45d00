-- ===== src/Outbox/Poller/Sound.antt =====
-- The poller writes only messages of stored rows into the log.
use workflowhub.Prelude.{
  ◌≡◌, sym, subst, arith, inl, inr, ℕ, zero, suc, List, [], ◌∷◌, ◌++◌, All, All-map, All-lookup,
  Document, Error, Result, Promise, after_ind, if_ind, nat_beq, length,
}
use workflowhub.Outbox.{Outbox}
use workflowhub.Outbox.Poller.{
  Message, Backend, IsLawful, Poller, poll_query, message_of, mark_error, process_event,
  process_events, poll_events, poll_outbox,
}
use workflowhub.Outbox.Poller.Rows.{IsKept, log-process_event, poll_outbox-Holds}
use workflowhub.Outbox.Poller.Quarantine.{polls}

All-append {κ} :
    {A : Type 0} (P : A → Type κ) (xs : List A) (a : A) → All P xs → P a → All P (xs ++ a ∷ [])
All-append P [] a h p = (p, tt)
All-append P (x ∷ xs) a (q, h) p = (q, All-append P xs a h p)

module _ (B : Backend) (L : IsLawful B) (Q : Message → Type 0) where
  -- The messages of the rows and those of the log have a property.
  abbrev pub IsSound : B.State → Type 0
  IsSound s = All (λ d. Q (message_of d.fields)) (B.events s) × All Q (B.log s)

  process_event-log :
      (d : Document Outbox) (s : B.State)
      → Q (message_of d.fields)
      → All Q (B.log s)
      → All Q (B.log (process_event B d s).1)
  process_event-log d s q h = elim (L.log-emit d.fields.pattern d.fields.payload s) [
    | inl same ↦ rw (log-process_event B L d s, same) h
    | inr grown ↦
        rw (log-process_event B L d s, grown) (All-append Q (B.log s) (message_of d.fields) h q)
  ]

  process_events-log :
      (ds : List (Document Outbox)) (s : B.State)
      → All (λ d. Q (message_of d.fields)) ds
      → All Q (B.log s)
      → All Q (B.log (process_events B ds s).1)
  unfolding process_events
  process_events-log [] s qs h = h
  process_events-log (d ∷ ds) s (q, qs) h =
      let here : All Q (B.log (process_event B d s).1) = process_event-log d s q h in
      after_ind (λ (r : Result (Unit {0}) × B.State). All Q (B.log r.1)) (process_event B d s) _ _
        (λ _ _. process_events-log ds _ qs here) (λ _ _. here)

  poll_events-log : (s : B.State) → IsSound s → All Q (B.log (poll_events B s).1)
  unfolding poll_events
  poll_events-log s (rows, h) =
      let t = (B.find poll_query s).1 in
      let same : All Q (B.log t) = rw (L.log-find poll_query s) h in
      after_ind (λ (r : Result (Unit {0}) × B.State). All Q (B.log r.1)) (B.find poll_query s) _ _
        (λ ds e.
          if_ind (λ (m : Promise B.State (Unit {0})). All Q (B.log (m t).1)) (nat_beq (length ds) 0)
            same
            (process_events-log ds t
              (All-map
                (λ d (q, _). All-lookup (λ o. Q (message_of o)) d.id (B.events s) d.fields rows q)
                ds (L.find-status poll_query s ds e))
              same))
        (λ _ _. same)

  poll_outbox-log : (p : Poller B) → IsSound p.backend → All Q (B.log (poll_outbox B p).backend)
  unfolding poll_outbox
  poll_outbox-log p h =
      if_ind (λ (q : Poller B). All Q (B.log q.backend)) p.is_polling h.1
        (after_ind (λ (r : Result (Unit {0}) × B.State). All Q (B.log r.1))
          (poll_events B p.backend) _ _ (λ _ _. poll_events-log p.backend h)
          (λ _ _. poll_events-log p.backend h))

  message_of-mark_error :
      (now : ℕ) (e : Error) (o : Outbox) → message_of (mark_error now e o) ≡ message_of o
  unfolding mark_error
  message_of-mark_error now e o = ground arith

  message-IsKept : IsKept (λ _ o. Q (message_of o))
  message-IsKept = record {
    grow = λ log m o q. q;
    completes = λ log now o q m. q;
    errs = λ log now e o q. subst Q (sym (message_of-mark_error now e o)) q;
  }

  pub poll_outbox-IsSound : (p : Poller B) → IsSound p.backend → IsSound (poll_outbox B p).backend
  poll_outbox-IsSound p h =
      (poll_outbox-Holds B L (λ _ o. Q (message_of o)) message-IsKept p h.0, poll_outbox-log p h)

  pub polls-IsSound : (n : ℕ) (p : Poller B) → IsSound p.backend → IsSound (polls B n p).backend
  unfolding polls
  polls-IsSound zero p h = h
  polls-IsSound (suc n) p h = poll_outbox-IsSound (polls B n p) (polls-IsSound n p h)
