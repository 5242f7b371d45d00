-- ===== src/Outbox/Poller/Bounds.antt =====
-- How much one poll publishes.
use workflowhub.Prelude.{
  ◌≡◌, ◌∙◌, ap, inl, inr, ℕ, suc, ◌+◌, ◌≤◌, List, [], ◌∷◌, arith, length, length-append, Document,
  Result, Promise, after_ind, if_ind, nat_beq,
}
use workflowhub.Outbox.{Outbox}
use workflowhub.Outbox.Poller.{
  Backend, IsLawful, Poller, poll_query, process_event, process_events, poll_events, poll_outbox,
}
use workflowhub.Outbox.Poller.Rows.{log-process_event}

module _ (B : Backend) (L : IsLawful B) where
  abbrev sent : B.State → ℕ
  sent s = length (B.log s)

  sent-process_event :
      (d : Document Outbox) (s : B.State) → sent (process_event B d s).1 ≤ sent s + 1
  sent-process_event d s =
      let o = d.fields in
      elim (L.log-emit o.pattern o.payload s) [
        | inl same ↦ omega (arith, ap length (log-process_event B L d s ∙ same))
        | inr grown ↦ omega (
          arith,
          ap length (log-process_event B L d s ∙ grown),
          length-append (B.log s) ((o.pattern, o.payload) ∷ []),
        )
      ]

  sent-process_events :
      (ds : List (Document Outbox)) (s : B.State)
      → sent (process_events B ds s).1 ≤ sent s + length ds
  unfolding process_events
  sent-process_events [] s = omega arith
  sent-process_events (d ∷ ds) s =
      after_ind (λ (r : Result (Unit {0}) × B.State). sent r.1 ≤ sent s + suc (length ds))
        (process_event B d s) _ _
        (λ _ _.
          omega (arith, sent-process_event d s, sent-process_events ds (process_event B d s).1))
        (λ _ _. omega (arith, sent-process_event d s))

  -- A poll adds at most ten messages to the log of Kafka.
  pub sent-poll_outbox : (p : Poller B) → sent (poll_outbox B p).backend ≤ sent p.backend + 10
  unfolding poll_outbox poll_events
  sent-poll_outbox p =
      let s = p.backend in
      let t = (B.find poll_query s).1 in
      let same : sent t ≡ sent s = ap length (L.log-find poll_query s) in
      let polled : sent (poll_events B s).1 ≤ sent s + 10 =
        after_ind (λ (r : Result (Unit {0}) × B.State). sent r.1 ≤ sent s + 10)
          (B.find poll_query s) _ _
          (λ ds e.
            if_ind (λ (m : Promise B.State (Unit {0})). sent (m t).1 ≤ sent s + 10)
              (nat_beq (length ds) 0) (omega arith)
              (omega (arith, L.find-limit poll_query s ds e, sent-process_events ds t)))
          (λ _ _. omega arith) in
      if_ind (λ (q : Poller B). sent q.backend ≤ sent s + 10) p.is_polling (omega arith)
        (after_ind (λ (r : Result (Unit {0}) × B.State). sent r.1 ≤ sent s + 10) (poll_events B s) _
          _ (λ _ _. polled) (λ _ _. polled))
