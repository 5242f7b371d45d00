-- ===== src/Rabbit/DeadLetters.antt =====
-- Where a message can go that the consumer refuses.
use workflowhub.Prelude.{
  ◌≡◌, refl, ◌∙◌, ap, sym, ◌⊎◌, inl, inr, or_string, ℕ, ◌+◌, ◌≤◌, String, true, Option, some, All,
  Member,
}
use workflowhub.Rabbit.{Amqp, QueueOptions, setup_topology, notify, main_options, retry_options}
use workflowhub.Rabbit.Broker.{IsLawful}
use workflowhub.Rabbit.Table.{expected, bindings, topology}
use workflowhub.Rabbit.Agreement.{Agrees, Reach, Reach-Agrees}
use workflowhub.Rabbit.Realised.{IsMade, IsOpen}
use workflowhub.Rabbit.Connect.{IsReady}
use workflowhub.Rabbit.Setup.{IsQuiet, setup_topology-IsMade}

-- The dead letters of the queue `q` are put into the queue `j`: a direct exchange delivers to the
-- queues bound by the routing key.
pub data Letters (A : Amqp) (s : A.State) (q : String) (j : String) : Type 0 where
  letters :
      (o : QueueOptions) (x k : String)
      → A.declared s q ≡ some o
      → o.dead_letter_exchange ≡ some x
      → o.dead_letter_routing_key ≡ some k
      → A.bound s j x k ≡ true
      → Letters A s q j

-- The queues that a message passes.
pub data Travels (A : Amqp) (s : A.State) (q : String) : String → Type 0 where
  stays : Travels A s q q
  moves : {i j : String} → Travels A s q i → Letters A s i j → Travels A s q j

abbrev pub IsCycled : String → Type 0
IsCycled q = (q ≡ notify.main) ⊎ (q ≡ notify.retry)

some_eq : {A : Type 0} (a b : A) → ◌≡◌ {A = Option A} (some a) (some b) → a ≡ b
some_eq a b h = cc

-- Every queue is bound by its own name.
bound_to : (j x k : String) → Member (j, x, k) bindings → j ≡ k
bound_to j x k (inl e) =
    ap (λ (t : String × String × String). t.0) e
    ∙ sym (ap (λ (t : String × String × String). t.2) e)
bound_to j x k (inr (inl e)) =
    ap (λ (t : String × String × String). t.0) e
    ∙ sym (ap (λ (t : String × String × String). t.2) e)
bound_to j x k (inr (inr (inl e))) =
    ap (λ (t : String × String × String). t.0) e
    ∙ sym (ap (λ (t : String × String × String). t.2) e)
bound_to j x k (inr (inr (inr m))) = absurd m

-- The routing key of the dead letters of a queue of the table.
key_of :
    (o p : QueueOptions) (k : String) {l : String}
    → ◌≡◌ {A = Option QueueOptions} (some p) (some o)
    → o.dead_letter_routing_key ≡ some k
    → p.dead_letter_routing_key ≡ some l
    → k ≡ l
key_of o p k {l} e f g =
    some_eq k l
      (sym f ∙ ap (λ (r : QueueOptions). r.dead_letter_routing_key) (sym (some_eq p o e)) ∙ g)

module _ (A : Amqp) where
  Letters-IsCycled :
      (s : A.State) (q j : String) → Agrees A s → IsCycled q → Letters A s q j → IsCycled j
  unfolding expected
  Letters-IsCycled s q j h (inl e) (letters o x k d dx dk b) =
      let known : expected notify.main ≡ some o = ap expected (sym e) ∙ h.of_queue q o d in
      inr (bound_to j x k (h.of_binding j x k b) ∙ key_of o (main_options notify) k known dk refl)
  Letters-IsCycled s q j h (inr e) (letters o x k d dx dk b) =
      let known : expected notify.retry ≡ some o = ap expected (sym e) ∙ h.of_queue q o d in
      inl (bound_to j x k (h.of_binding j x k b) ∙ key_of o (retry_options notify) k known dk refl)

  Travels-IsCycled :
      (s : A.State) (q j : String) → Agrees A s → IsCycled q → Travels A s q j → IsCycled j
  Travels-IsCycled s q j h c stays = c
  Travels-IsCycled s q j h c (moves {i = i} t l) =
      Letters-IsCycled s i j h (Travels-IsCycled s q i h c t) l

  -- A refused message never reaches the queue for dead letters: in every state that the participants can
  -- bring about in a broker that agrees with the table at first, the queues that a message passes by
  -- dead-lettering, from the main queue on, are the main queue and the retry queue.
  pub Travels-Avoids :
      (s t : A.State) (j : String)
      → IsLawful A
      → Agrees A s
      → Reach A s t
      → Travels A t notify.main j
      → IsCycled j
  Travels-Avoids s t j L h r p =
      Travels-IsCycled t notify.main j (Reach-Agrees A L h r) (inl refl) p

  cycle :
      (s : A.State)
      → All (λ c. IsMade A c s) topology
      → Letters A s notify.main notify.retry × Letters A s notify.retry notify.main
  cycle s made =
      let retry = made.1.1.1.1.1 in
      let main = retry.1.1 in
      (
        letters (main_options notify) "retry.exchange" notify.retry main.0 refl refl retry.1.0,
        letters (retry_options notify) "notification.exchange" notify.main retry.0 refl refl
            main.1.0,
      )

  -- If the broker can be reached within 20 seconds, agrees with the table and answers what does not
  -- conflict with it, then after the setup every exchange, queue and binding of the topology is there
  -- with its options, whether or not the calls that close the connection fail, and the two queues feed each
  -- other: a refused message is moved to the retry queue, and from there back to the main queue.
  pub setup_topology-Letters :
      (L : IsLawful A) (O : IsOpen A) (Q : IsQuiet A) (ready : ℕ) (rabbitmq_url : Option String)
      (s : A.State)
      → IsReady A (or_string rabbitmq_url "amqp://localhost:5672") ready
      → ready ≤ A.now s + 20000
      → Agrees A s
      → let end = (setup_topology A rabbitmq_url s).1 in
        All (λ c. IsMade A c end) topology
        × Letters A end notify.main notify.retry
        × Letters A end notify.retry notify.main
  setup_topology-Letters L O Q ready rabbitmq_url s R early h =
      let made = setup_topology-IsMade A L O Q ready rabbitmq_url s R early h in
      let (forth, back) = cycle (setup_topology A rabbitmq_url s).1 made in (made, forth, back)
