-- ===== src/Rabbit/Connect.antt =====
-- The loop of connections.
use Prim.Native.Nat.{◌*◌}
use workflowhub.Prelude.{
  ◌≡◌, refl, ℕ, zero, suc, ◌+◌, ◌≤◌, ◌<◌, nat_beq, String, false, Option, some, arith, Error,
  Result, ok, err, after_ind, Cases,
}
use workflowhub.Rabbit.{Amqp, connect_loop}

-- A broker that can be reached from a time on. A connection may take any time.
pub record IsReady (A : Amqp) (url : String) (ready : ℕ) : Type 0 where
  pub connect_ready :
      (s : A.State) → ready ≤ A.now s → (c : A.Connection) × ((A.connect url s).0 ≡ ok c)
  pub now-connect : (s : A.State) → A.now s ≤ A.now (A.connect url s).1
  pub now-wait : (n : ℕ) (s : A.State) → A.now s + n ≤ A.now (A.wait n s)
  pub attempts-connect : (s : A.State) → A.attempts (A.connect url s).1 ≡ A.attempts s + 1
  pub attempts-wait : (n : ℕ) (s : A.State) → A.attempts (A.wait n s) ≡ A.attempts s

module _ (A : Amqp) (url : String) (ready : ℕ) (R : IsReady A url ready) where
  -- What the loop ends in, with one attempt and `n` retries left.
  abbrev pub Ends : ℕ → A.State → Result (Option A.Connection) × A.State → Type 0
  Ends n s =
      Cases
        (λ connection w.
          ((c : A.Connection) × (connection ≡ some c)) × (A.attempts w ≤ A.attempts s + n + 1))
        (λ e w. (A.attempts w ≡ A.attempts s + n + 1) × (A.now s + 5000 * n < ready))

  refused_early : (s : A.State) (e : Error) → (A.connect url s).0 ≡ err e → A.now s < ready
  refused_early s e h = ground (arith, R.connect_ready s)

  Ends-wait :
      (n : ℕ) (s : A.State) (r : Result (Option A.Connection) × A.State)
      → Ends n (A.wait 5000 (A.connect url s).1) r
      → Ends (suc n) s r
  Ends-wait n s (ok c, w) (h, b) =
      (h, omega (arith, R.attempts-connect s, R.attempts-wait 5000 (A.connect url s).1))
  Ends-wait n s (err e, w) (b, t) = (
    omega (arith, R.attempts-connect s, R.attempts-wait 5000 (A.connect url s).1),
    omega (arith, R.now-connect s, R.now-wait 5000 (A.connect url s).1),
  )

  connect_loop-Ends : (n : ℕ) (s : A.State) → Ends n s (connect_loop A url (suc n) s)
  unfolding connect_loop
  connect_loop-Ends zero s =
      after_ind (Ends zero s) (A.connect url s) _ _
        (λ c h. ((c, refl), omega (arith, R.attempts-connect s)))
        (λ e h. (omega (arith, R.attempts-connect s), omega (arith, refused_early s e h)))
  connect_loop-Ends (suc n) s =
      after_ind (Ends (suc n) s) (A.connect url s) _ _
        (λ c h. ((c, refl), omega (arith, R.attempts-connect s)))
        (λ e h.
          let more : nat_beq (suc n) 0 ≡ false = ground arith in
          let w = A.wait 5000 (A.connect url s).1 in
          rw more (Ends-wait n s (connect_loop A url (suc n) w) (connect_loop-Ends n w)))

  -- The loop ends after at most five attempts: with a connection, or with an error, and then after
  -- exactly five attempts and only if the broker cannot be reached within 20 seconds of the start.
  -- It never ends without a connection and without an error.
  pub connect_loop-Connects : (s : A.State) → Ends 4 s (connect_loop A url 5 s)
  connect_loop-Connects s = connect_loop-Ends 4 s
