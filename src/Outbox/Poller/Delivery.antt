-- ===== src/Outbox/Poller/Delivery.antt =====
-- The delivery guarantee of the outbox poller, and the shape of its rows: two properties of a row
-- that every poll keeps, whichever calls fail on the way.
use workflowhub.Prelude.{
  ◌≡◌, ◌≢◌, ◌≤◌, ◌<◌, ◌+◌, ℕ, List, ◌∷◌, [], ◌++◌, arith, Member, Member-append_left, none, leb,
  Error, Option, Bool-cases, inl, inr, false,
}
use workflowhub.Outbox.{Outbox, OutboxStatus, pending, completed, failed}
use workflowhub.Outbox.Poller.{
  Message, Backend, IsLawful, Poller, mark_error, message_of, poll_outbox, max_attempts,
}
use workflowhub.Outbox.Poller.Rows.{IsKept, Holds, poll_outbox-Holds}

-- A row that is marked completed has its message in the log.
abbrev pub PublishedAs : OutboxStatus → Message → List Message → Type 0
PublishedAs completed m log = Member m log
PublishedAs _ m log = Unit

abbrev pub Published : List Message → Outbox → Type 0
Published log o = PublishedAs o.status (message_of o) log

grow-Published :
    (st : OutboxStatus) (log : List Message) (m x : Message)
    → PublishedAs st x log
    → PublishedAs st x (log ++ m ∷ [])
grow-Published completed log m x p = Member-append_left x log (m ∷ []) p
grow-Published pending log m x p = tt
grow-Published failed log m x p = tt

mark_error-Published :
    (log : List Message) (now : ℕ) (e : Error) (o : Outbox)
    → Published log o
    → Published log (mark_error now e o)
unfolding mark_error
mark_error-Published log now e o p = elim (Bool-cases (leb max_attempts (o.attempts + 1))) [
  | inl last ↦ rw (last, mark_error) tt
  | inr more ↦ rw (more, mark_error) p
]

Published-IsKept : IsKept Published
Published-IsKept = record {
  grow = λ log m o p. grow-Published o.status log m (message_of o) p;
  completes = λ log now o p m. m;
  errs = mark_error-Published;
}

-- A pending row has been tried fewer than 25 times and has no date of processing, so that the
-- index that deletes old rows leaves it alone; every other row has one, and a failed row was tried
-- at least 25 times.
abbrev pub Consistent : OutboxStatus → ℕ → Option ℕ → Type 0
Consistent pending n date = (n < max_attempts) × (date ≡ none)
Consistent completed n date = date ≢ none
Consistent failed n date = (max_attempts ≤ n) × (date ≢ none)

abbrev pub IsConsistent : Outbox → Type 0
IsConsistent o = Consistent o.status o.attempts o.processed_at

Consistent-tried :
    (st : OutboxStatus) (n : ℕ) (date : Option ℕ)
    → leb max_attempts (n + 1) ≡ false
    → Consistent st n date
    → Consistent st (n + 1) date
Consistent-tried pending n date h c = ground arith
Consistent-tried completed n date h c = c
Consistent-tried failed n date h c = ground arith

mark_error-IsConsistent :
    (now : ℕ) (e : Error) (o : Outbox) → IsConsistent o → IsConsistent (mark_error now e o)
unfolding mark_error
mark_error-IsConsistent now e o c = elim (Bool-cases (leb max_attempts (o.attempts + 1))) [
  | inl last ↦ rw (last, mark_error) (ground arith)
  | inr more ↦ rw (more, mark_error) (Consistent-tried o.status o.attempts o.processed_at more c)
]

IsConsistent-IsKept : IsKept (λ _ o. IsConsistent o)
IsConsistent-IsKept = record {
  grow = λ log m o c. c;
  completes = λ log now o c m. λ e. absurd (cc);
  errs = λ log now e o c. mark_error-IsConsistent now e o c;
}

module _ (B : Backend) (L : IsLawful B) where
  -- A poll keeps the guarantee that every row marked completed has its message in the log of Kafka,
  -- whichever of the calls of the database and of the broker fail during it.
  pub poll_outbox-Published :
      (p : Poller B) → Holds B Published p.backend → Holds B Published (poll_outbox B p).backend
  poll_outbox-Published = poll_outbox-Holds B L Published Published-IsKept

  -- A poll keeps the rows consistent, whichever calls fail during it: a pending row has fewer than 25
  -- attempts and no date of processing, every other row has such a date, and a failed row has at
  -- least 25 attempts.
  pub poll_outbox-IsConsistent :
      (p : Poller B)
      → Holds B (λ _ o. IsConsistent o) p.backend
      → Holds B (λ _ o. IsConsistent o) (poll_outbox B p).backend
  poll_outbox-IsConsistent = poll_outbox-Holds B L (λ _ o. IsConsistent o) IsConsistent-IsKept
