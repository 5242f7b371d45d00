-- ===== src/Settings/RabbitUrl.antt =====
-- Who connects to which RabbitMQ: the clients of apps/api-gateway/src/auth/auth.module.ts and
-- apps/task-service/src/task/task.module.ts, the consumer of apps/notification-service/src/main.ts, and the setup
-- service of libs/shared/src/rabbitmq, which the gateway and the notification service run.
use workflowhub.Prelude.{
  ◌≡◌, ◌↔◌, ◌≢◌, eq_iff, refl, ◌∙◌, ap, String, Bool, true, false, Option, none, some, or_string,
  truthy, List, [], ◌∷◌,
}
use workflowhub.Rabbit.{
  QueueOptions, task_client_queue, gateway_client_queue, consumer_queue, setup_url,
}
use workflowhub.Settings.{Lookup}

pub record Options : Type 0 where
  pub urls : List (Option String)
  pub queue : String × QueueOptions
  pub no_ack : Option Bool

-- `urls: [config.get('RABBITMQ_URL')]`: an absent variable is an absent URL.
abbrev pub gateway_client : Lookup → Options
gateway_client config = record {
  urls = config "RABBITMQ_URL" ∷ [];
  queue = gateway_client_queue;
  no_ack = none;
}

abbrev pub task_client : Lookup → Options
task_client config = record {
  urls = config "RABBITMQ_URL" ∷ [];
  queue = task_client_queue;
  no_ack = none;
}

-- `process.env.RABBITMQ_URL || ...` of the consumer.
abbrev pub consumer_url : Option String → String
consumer_url rabbitmq_url = or_string rabbitmq_url "amqp://rabbitmq:5672"

abbrev pub consumer : Lookup → Options
consumer env = record {
  urls = some (consumer_url (env "RABBITMQ_URL")) ∷ [];
  queue = consumer_queue;
  no_ack = some false;
}

-- Clients and consumer are given the URL at which the topology is declared.
abbrev pub Meet : Lookup → Lookup → Type 0
Meet config env =
    let at = some (setup_url (env "RABBITMQ_URL")) ∷ [] in
    ((gateway_client config).urls ≡ at)
    × ((task_client config).urls ≡ at)
    × ((consumer env).urls ≡ at)

-- `if (variable)`
abbrev pub is_set : Option String → Bool
is_set none = false
is_set (some url) = truthy url

abbrev first_url : List (Option String) → String
first_url (some url ∷ rest) = url
first_url _ = ""

fallbacks_ne : consumer_url none ≢ setup_url none
fallbacks_ne e = absurd (cc ((eq_iff (consumer_url none) (setup_url none)).1 e))

urls-given :
    (v : Option String)
    → ((some (consumer_url v) ∷ []) ≡ (some (setup_url v) ∷ []) → is_set v ≡ true)
      × (is_set v ≡ true → (consumer_url v ≡ setup_url v) × (v ≡ some (setup_url v)))
urls-given none = (λ e. absurd (fallbacks_ne (ap first_url e)), λ e. absurd (cc e))
urls-given (some String.[]) = (λ e. absurd (fallbacks_ne (ap first_url e)), λ e. absurd (cc e))
urls-given (some (String.◌∷◌ c s)) = (λ e. refl, λ e. (refl, refl))

-- Where the variable is the same for all of them, the gateway, the task service and the notification
-- service are given the URL at which the topology is declared if and only if the variable is a text
-- that is not empty: the fallbacks of the setup service and of the consumer are different brokers, and
-- the clients have no fallback.
pub gateway_client-consumer :
    (config env : Lookup)
    → config "RABBITMQ_URL" ≡ env "RABBITMQ_URL"
    → Meet config env ↔ (is_set (env "RABBITMQ_URL") ≡ true)
gateway_client-consumer config env same =
    let (there, back) = urls-given (env "RABBITMQ_URL") in
    (
      λ (a, b, c). there c,
      λ full.
          let (ours, given) = back full in
          let at = ap (λ (v : Option String). v ∷ []) (same ∙ given) in
          (at, at, ap (λ (url : String). some url ∷ []) ours),
    )
