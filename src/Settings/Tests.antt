-- ===== src/Settings/Tests.antt =====
-- The participants of Kafka and of RabbitMQ in some environments.
use workflowhub.Prelude.{
  ◌≡◌, ◌≢◌, ◌↔◌, refl, String, true, none, some, [], ◌∷◌, ◌==◌, join_with, split_on, trim, arith,
  if◌then◌else◌,
}
use workflowhub.Settings.{Lookup}
use workflowhub.Settings.Kafka.{
  producer, notification_consumer, analytics_consumer, brokers-written,
}
use workflowhub.Settings.RabbitUrl.{Meet, is_set, consumer_url, gateway_client-consumer}
use workflowhub.Rabbit.{setup_url}
use workflowhub.Settings.Cors.{these, cors_options}

-- One variable, and nothing else.
abbrev only : String → String → Lookup
only variable value name = if variable == name then some value else none

abbrev cluster : Lookup
cluster = only "KAFKA_BROKERS" "a:9093,b:9093"

brokers-written_example :
    ((producer cluster cluster).brokers ≡ ("a:9093" ∷ "b:9093" ∷ []))
    × ((notification_consumer cluster).brokers ≡ ("a:9093" ∷ "b:9093" ∷ []))
    × ((analytics_consumer cluster).brokers ≡ ("a:9093" ∷ "b:9093" ∷ []))
    × ((notification_consumer cluster).group_id ≢ (analytics_consumer cluster).group_id)
unfolding join_with
brokers-written_example =
    brokers-written cluster cluster (some ("a:9093", "b:9093" ∷ [])) (ground arith) refl refl

-- An empty variable is a broker without a name.
empty_brokers : (notification_consumer (only "KAFKA_BROKERS" "")).brokers ≡ ("" ∷ [])
unfolding split_on
empty_brokers = refl

abbrev reachable : Lookup
reachable = only "RABBITMQ_URL" "amqp://mq:5672"

gateway_client-consumer_example : Meet reachable reachable ↔ (is_set (some "amqp://mq:5672") ≡ true)
gateway_client-consumer_example = gateway_client-consumer reachable reachable refl

-- Without the variable the setup service and the consumer are at different brokers.
apart : (setup_url none ≡ "amqp://localhost:5672") × (consumer_url none ≡ "amqp://rabbitmq:5672")
apart = (refl, refl)

-- Spaces around an origin do not count.
spaced_origins :
    (cors_options (only "FRONTEND_URL" "https://a.org, https://b.org")).origin
    ≡ these ("https://a.org" ∷ "https://b.org" ∷ [])
unfolding split_on trim
spaced_origins = refl
