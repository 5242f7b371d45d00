-- ===== src/Outbox/Poller/Quarantine.antt =====
-- A row that cannot be published is quarantined: the retry policy of the poller, poll by poll.
use workflowhub.Prelude.{
  ◌≡◌, refl, ◌∙◌, sym, ap, inl, inr, ℕ, zero, suc, ltb, String, false, ◌==◌, eq_iff, some, List, [],
  ◌∷◌, arith, All-map, Document, lookup, Error, Result, ok, after-ok, after_ind, if◌then◌else◌,
  Bool-cases, nat_beq, length,
}
use workflowhub.Outbox.{Outbox, pending, failed}
use workflowhub.Outbox.Poller.{
  Backend, IsLawful, Poller, poll_query, mark_error, process_events, poll_events, poll_outbox,
  max_attempts,
}
use workflowhub.Outbox.Poller.Outage.{IsOutage, process_events-Tried, lookup-process_events_ne}

-- `n` runs of the timer, one after another.
unfoldable pub polls : (B : Backend) → ℕ → Poller B → Poller B
polls B zero p = p
polls B (suc n) p = poll_outbox B (polls B n p)

-- A row that was new after `n` failed attempts.
pub record IsTried (n : ℕ) (o : Outbox) : Type 0 where
  pub counted : o.attempts ≡ (if ltb n max_attempts then n else max_attempts)
  pub marked : o.status ≡ (if ltb n max_attempts then pending else failed)

mark_error-IsTried :
    (n now : ℕ) (e : Error) (o : Outbox)
    → IsTried n o
    → o.status ≡ pending
    → IsTried (suc n) (mark_error now e o)
unfolding mark_error
mark_error-IsTried n now e o t p = ground arith

IsTried-done : (n : ℕ) (o : Outbox) → ltb n max_attempts ≡ false → IsTried n o → IsTried (suc n) o
IsTried-done n o late t = ground arith

nat_beq-suc : (n : ℕ) → nat_beq (suc n) 0 ≡ false
nat_beq-suc n = ground arith

module _ (B : Backend) where
  pub backend-poll_outbox :
      (p : Poller B)
      → p.is_polling ≡ false
      → (poll_outbox B p).backend ≡ (poll_events B p.backend).1
  unfolding poll_outbox
  backend-poll_outbox p idle = rw idle (
      after_ind (λ (r : Result (Unit {0}) × B.State). r.1 ≡ (poll_events B p.backend).1)
        (poll_events B p.backend) _ _ (λ _ _. refl) (λ _ _. refl))

  pub is_polling-poll_outbox :
      (p : Poller B) → p.is_polling ≡ false → (poll_outbox B p).is_polling ≡ false
  unfolding poll_outbox
  is_polling-poll_outbox p idle = ground arith

  pub poll_events-find :
      (s : B.State) (ds : List (Document Outbox))
      → (B.find poll_query s).0 ≡ ok ds
      → (poll_events B s).1 ≡ (process_events B ds (B.find poll_query s).1).1
  unfolding poll_events process_events
  poll_events-find s [] e = rw (after-ok (B.find poll_query s) _ _ e)
  poll_events-find s (d ∷ ds) e = rw (after-ok (B.find poll_query s) _ _ e, nat_beq-suc (length ds))

  pub is_polling-polls :
      (n : ℕ) (p : Poller B) → p.is_polling ≡ false → (polls B n p).is_polling ≡ false
  unfolding polls
  is_polling-polls zero p idle = idle
  is_polling-polls (suc n) p idle = is_polling-poll_outbox (polls B n p) (is_polling-polls n p idle)

module _ (B : Backend) (L : IsLawful B) (O : IsOutage B) where
  poll_events-IsTried :
      (i : String) (n : ℕ) (s : B.State) (o : Outbox)
      → lookup i (B.events s) ≡ some o
      → IsTried n o
      → (o' : Outbox) × (lookup i (B.events (poll_events B s).1) ≡ some o') × IsTried (suc n) o'
  poll_events-IsTried i n s o found t =
      let (ds, answered, complete) = O.find_works s in
      let now_found : lookup i (B.events (B.find poll_query s).1) ≡ some o =
        rw (L.events-find poll_query s) found in
      let copies = L.find-status poll_query s ds answered in
      rw (poll_events-find B s ds answered) (elim (Bool-cases (ltb n max_attempts)) [
        | inl early ↦
            let open_row : o.status ≡ pending = t.marked ∙ rw early in
            let (now, e, stored) =
              process_events-Tried B L O i o ds _ (All-map (copied found) ds copies) now_found
                (complete (record { id = i; fields = o }) found open_row) in
            (mark_error now e o, stored, mark_error-IsTried n now e o t open_row)
        | inr late ↦ (
          o,
          lookup-process_events_ne B L O i o ds _
                (All-map (others found (t.marked ∙ rw late)) ds copies)
              ∙ now_found,
          IsTried-done n o late t,
        )
      ])
    where
      copied :
          lookup i (B.events s) ≡ some o
          → (d : Document Outbox)
          → (lookup d.id (B.events s) ≡ some d.fields) × (d.fields.status ≡ pending)
          → d.id ≡ i
          → d.fields ≡ o
      copied found d (read, _) same =
          let e : some d.fields ≡ some o =
            sym read ∙ ap (λ j. lookup j (B.events s)) same ∙ found in
          cc

      others :
          lookup i (B.events s) ≡ some o
          → o.status ≡ failed
          → (d : Document Outbox)
          → (lookup d.id (B.events s) ≡ some d.fields) × (d.fields.status ≡ pending)
          → (d.id == i) ≡ false
      others found closed d (read, open_row) = elim (Bool-cases (d.id == i)) [
        | inl same ↦
            let copy : d.fields ≡ o = copied found d (read, open_row) ((eq_iff d.id i).0 same) in
            let clash : pending ≡ failed =
              sym open_row ∙ ap (λ (x : Outbox). x.status) copy ∙ closed in
            absurd (cc)
        | inr other ↦ other
      ]

  -- While Kafka refuses every message, the database answers and a poll finds every pending row, a new
  -- row is pending with `n` attempts after `n` polls, as long as `n` is below 25. From the 25th poll
  -- on it is failed with 25 attempts, and is not tried again.
  pub polls-IsTried :
      (i : String) (p : Poller B) (o : Outbox)
      → p.is_polling ≡ false
      → lookup i (B.events p.backend) ≡ some o
      → o.status ≡ pending
      → o.attempts ≡ 0
      → (n : ℕ)
      → (o' : Outbox) × (lookup i (B.events (polls B n p).backend) ≡ some o') × IsTried n o'
  unfolding polls
  polls-IsTried i p o idle found open_row new zero = (o, found, ground arith)
  polls-IsTried i p o idle found open_row new (suc n) =
      let (o', found', t) = polls-IsTried i p o idle found open_row new n in
      rw (backend-poll_outbox B (polls B n p) (is_polling-polls B n p idle))
        (poll_events-IsTried i n (polls B n p).backend o' found' t)
