-- ===== src/Rabbit/Table.antt =====
-- The declarations as a sequence of calls, and what each may declare.
use workflowhub.Prelude.{
  ◌≡◌, refl, sym, subst, then_assoc, then-pure, inl, inr, String, Bool, true, ◌==◌, Option, some,
  none, List, [], ◌∷◌, Member, All, Promise, ◌>>◌, pure, if◌then◌else◌,
}
use workflowhub.Rabbit.{
  Amqp, QueueOptions, Exchange, notify, notify_exchange, retry_exchange, dlq_exchange, dlq_options,
  retry_options, main_options, task_client_queue, gateway_client_queue, consumer_queue,
  assert_exchanges, declare_triplet, declare_triplets, declare_topology,
}

-- One call to the broker that declares something.
pub data Call : Type 0 where
  exchange : Exchange → Bool → Call
  queue : String → QueueOptions → Call
  bind : String → String → String → Call

-- The calls of the setup service, in their order.
abbrev pub topology : List Call
topology =
    exchange notify_exchange true
    ∷ exchange retry_exchange true
    ∷ exchange dlq_exchange true
    ∷ queue notify.dlq dlq_options
    ∷ bind notify.dlq dlq_exchange.name notify.dlq
    ∷ queue notify.retry (retry_options notify)
    ∷ bind notify.retry retry_exchange.name notify.retry
    ∷ queue notify.main (main_options notify)
    ∷ bind notify.main notify_exchange.name notify.main
    ∷ []

-- The calls of all participants.
abbrev pub all_calls : List Call
all_calls =
    queue task_client_queue.0 task_client_queue.1
    ∷ queue gateway_client_queue.0 gateway_client_queue.1
    ∷ queue consumer_queue.0 consumer_queue.1
    ∷ topology

-- What is to become of each name.
unfoldable pub expected : String → Option QueueOptions
expected q =
    if q == notify.main
    then some (main_options notify)
    else if q == notify.retry
    then some (retry_options notify)
    else if q == notify.dlq
    then some dlq_options
    else none

abbrev pub bindings : List (String × String × String)
bindings =
    (notify.main, notify_exchange.name, notify.main)
    ∷ (notify.retry, retry_exchange.name, notify.retry)
    ∷ (notify.dlq, dlq_exchange.name, notify.dlq)
    ∷ []

abbrev pub Fits : Call → Type 0
Fits (exchange x b) = (x.type ≡ "direct") × (b ≡ true)
Fits (queue q o) = expected q ≡ some o
Fits (bind q x k) = Member (q, x, k) bindings

pub all_calls-Fits : All Fits all_calls
unfolding expected
all_calls-Fits = (
  refl,
  (
    refl,
    (
      refl,
      (
        (refl, refl),
        (
          (refl, refl),
          (
            (refl, refl),
            (refl, (inr (inr (inl refl)), (refl, (inr (inl refl), (refl, (inl refl, tt)))))),
          ),
        ),
      ),
    ),
  ),
)

pub Member-Fits : (cs : List Call) (d : Call) → All Fits cs → Member d cs → Fits d
Member-Fits [] d h m = absurd m
Member-Fits (c ∷ cs) d (f, h) (inl e) = subst Fits (sym e) f
Member-Fits (c ∷ cs) d (f, h) (inr m) = Member-Fits cs d h m

module _ (A : Amqp) (channel : A.Channel) where
  abbrev pub perform : Call → Promise A.State (Unit {0})
  perform (exchange x b) = A.assert_exchange channel x b
  perform (queue q o) = A.assert_queue channel q o
  perform (bind q x k) = A.bind_queue channel q x k

  unfoldable pub perform_all : List Call → Promise A.State (Unit {0})
  perform_all [] = pure tt
  perform_all (c ∷ cs) = perform c >> perform_all cs

  -- The setup service makes exactly the calls of the table, in this order, and stops at the first that
  -- fails.
  pub declare_topology-perform_all : declare_topology A channel ≡ perform_all topology
  unfolding declare_topology declare_triplets declare_triplet assert_exchanges perform_all
  declare_topology-perform_all = simp (then_assoc, then-pure)
