-- ===== src/Rabbit.antt =====
-- libs/shared/src/rabbitmq: the exchanges and queues, and the service that declares them. The queue
-- options of the participants are those of apps/task-service/src/task/task.module.ts,
-- apps/api-gateway/src/auth/auth.module.ts and apps/notification-service/src/main.ts.
pub mod Broker
pub mod Connect
pub mod Table
pub mod Agreement
pub mod Realised
pub mod Setup
pub mod DeadLetters
mod Tests
use workflowhub.Prelude.{
  ◌≡◌, ◌≢◌, ℕ, zero, suc, ◌+◌, ◌≤◌, nat_beq, String, Bool, true, false, ◌&&◌, ◌||◌, Option, some,
  none, List, [], ◌∷◌, ◌==◌, Scalar, num, str, Error, Result, ok, err, Promise, ◌>>=◌, ◌>>◌, pure,
  throw, try_catch, after, new_error, or_string, if◌then◌else◌,
}

-- The options of `assertQueue` that the code sets; an absent argument is `none`.
pub record QueueOptions : Type 0 where
  pub durable : Bool
  pub dead_letter_exchange : Option String
  pub dead_letter_routing_key : Option String
  pub message_ttl : Option ℕ

-- The three queues of a service.
pub record Triplet : Type 0 where
  pub main : String
  pub retry : String
  pub dlq : String

pub record Exchange : Type 0 where
  pub name : String
  pub type : String

abbrev pub notify : Triplet
notify = record {
  main = "notification_queue";
  retry = "notification_queue_retry";
  dlq = "notification_queue_dlq";
}

-- `Object.values(QUEUES)`
abbrev pub queues : List Triplet
queues = notify ∷ []

abbrev pub notify_exchange : Exchange
notify_exchange = record { name = "notification.exchange"; type = "direct" }

abbrev pub retry_exchange : Exchange
retry_exchange = record { name = "retry.exchange"; type = "direct" }

abbrev pub dlq_exchange : Exchange
dlq_exchange = record { name = "dlq.exchange"; type = "direct" }

-- `Object.values(EXCHANGES)`
abbrev pub exchanges : List Exchange
exchanges = notify_exchange ∷ retry_exchange ∷ dlq_exchange ∷ []

-- A queue for the dead letters of others: it has no arguments of its own.
abbrev pub dlq_options : QueueOptions
dlq_options = record {
  durable = true;
  dead_letter_exchange = none;
  dead_letter_routing_key = none;
  message_ttl = none;
}

abbrev pub retry_options : Triplet → QueueOptions
retry_options service = record {
  durable = true;
  dead_letter_exchange = some notify_exchange.name;
  dead_letter_routing_key = some service.main;
  message_ttl = some 15000;
}

abbrev pub main_options : Triplet → QueueOptions
main_options service = record {
  durable = true;
  dead_letter_exchange = some retry_exchange.name;
  dead_letter_routing_key = some service.retry;
  message_ttl = none;
}

-- The queue that the clients of the task service and of the gateway and the consumer of the
-- notification service declare, each in its own file.
abbrev pub task_client_queue : String × QueueOptions
task_client_queue = (
  notify.main,
  record {
    durable = true;
    dead_letter_exchange = some "retry.exchange";
    dead_letter_routing_key = some notify.retry;
    message_ttl = none;
  },
)

abbrev pub gateway_client_queue : String × QueueOptions
gateway_client_queue = (
  "notification_queue",
  record {
    durable = true;
    dead_letter_exchange = some "retry.exchange";
    dead_letter_routing_key = some notify.retry;
    message_ttl = none;
  },
)

abbrev pub consumer_queue : String × QueueOptions
consumer_queue = (
  notify.main,
  record {
    durable = true;
    dead_letter_exchange = some "retry.exchange";
    dead_letter_routing_key = some notify.retry;
    message_ttl = none;
  },
)

-- `process.env.RABBITMQ_URL || ...` of the setup service.
abbrev pub setup_url : Option String → String
setup_url rabbitmq_url = or_string rabbitmq_url "amqp://localhost:5672"

-- An entry of the `x-death` header.
pub record Death : Type 0 where
  pub queue : String
  pub count : ℕ

-- `xDeath.find(…)`
abbrev pub find_death : String → List Death → Option Death
find_death name [] = none
find_death name (d ∷ rest) = if d.queue == name then some d else find_death name rest

-- `getRetryCount`, where the header is missing or is an array.
pub get_retry_count : Option (List Death) → String → ℕ
get_retry_count x_death retry_queue_name = elim x_death [
  | none ↦ 0
  | some deaths ↦ elim (find_death retry_queue_name deaths) [ none ↦ 0 | some entry ↦ entry.count ]
]

-- amqplib, the broker behind it and `setTimeout`. `declared` is what the broker knows of a queue,
-- `bound s q x k` tells whether the queue q is bound to the exchange x by the key k, `exchange` is
-- the type and the durability of an exchange, `attempts` counts the calls of `connect`, and `now` is the time in milliseconds.
pub record Amqp : Type 1 where
  pub State : Type 0
  pub Connection : Type 0
  pub Channel : Type 0
  pub declared : State → String → Option QueueOptions
  pub bound : State → String → String → String → Bool
  pub exchange : State → String → Option (String × Bool)
  pub attempts : State → ℕ
  pub now : State → ℕ
  pub connect : String → Promise State Connection
  pub wait : ℕ → State → State
  pub create_channel : Connection → Promise State Channel
  pub assert_exchange : Channel → Exchange → Bool → Promise State (Unit {0})
  pub assert_queue : Channel → String → QueueOptions → Promise State (Unit {0})
  pub bind_queue : Channel → String → String → String → Promise State (Unit {0})
  pub close_channel : Channel → Promise State (Unit {0})
  pub close_connection : Connection → Promise State (Unit {0})

module _ (A : Amqp) where
  -- The `while` loop, with the retries that are left and `connection` still null.
  pub connect_loop : String → ℕ → Promise A.State (Option A.Connection)
  connect_loop url zero s = (ok none, s)
  connect_loop url (suc retries) s =
      after (A.connect url s) (λ connection w. (ok (some connection), w))
        (λ error w.
          let again = connect_loop url retries (A.wait 5000 w) in
          if nat_beq retries 0 then (err error, w) else again)

  assert_exchanges : A.Channel → List Exchange → Promise A.State (Unit {0})
  assert_exchanges channel [] = pure tt
  assert_exchanges channel (ex ∷ rest) =
      A.assert_exchange channel ex true >> assert_exchanges channel rest

  -- The body of the second loop.
  pub declare_triplet : A.Channel → Triplet → Promise A.State (Unit {0})
  declare_triplet channel service = do
    A.assert_queue channel service.dlq dlq_options
    A.bind_queue channel service.dlq dlq_exchange.name service.dlq
    A.assert_queue channel service.retry (retry_options service)
    A.bind_queue channel service.retry retry_exchange.name service.retry
    A.assert_queue channel service.main (main_options service)
    A.bind_queue channel service.main notify_exchange.name service.main

  pub declare_triplets : A.Channel → List Triplet → Promise A.State (Unit {0})
  declare_triplets channel [] = pure tt
  declare_triplets channel (service ∷ rest) =
      declare_triplet channel service >> declare_triplets channel rest

  -- The declarations, over an open channel.
  pub declare_topology : A.Channel → Promise A.State (Unit {0})
  declare_topology channel = assert_exchanges channel exchanges >> declare_triplets channel queues

  -- What follows the loop of connections.
  pub with_connection : Option A.Connection → Promise A.State (Unit {0})
  with_connection none = throw (new_error "Connection could not be established")
  with_connection (some connection) = do
    channel ← A.create_channel connection
    declare_topology channel
    A.close_channel channel
    A.close_connection connection

  -- The `try` block of `setupTopology`.
  pub establish : Option String → Promise A.State (Unit {0})
  establish rabbitmq_url = connect_loop (setup_url rabbitmq_url) 5 >>= with_connection

  -- `setupTopology`: an error is only logged.
  pub setup_topology : Option String → Promise A.State (Unit {0})
  setup_topology rabbitmq_url = try_catch (establish rabbitmq_url) (λ error. pure tt)
