-- ===== src/Settings/Kafka.antt =====
-- The three participants of Kafka: the client of apps/task-service/src/task/task.module.ts, and the consumers of
-- apps/notification-service/src/main.ts and apps/analytics-service/src/main.ts.
use workflowhub.Prelude.{
  ◌≡◌, ◌≢◌, ◌∙◌, ap, String, Bool, true, Option, none, some, or_string, List, [], ◌∷◌, split_on,
  split_on-join_with, join_with, AllLack,
}
use workflowhub.Settings.{Lookup}

pub record Options : Type 0 where
  pub client_id : String
  pub brokers : List String
  pub group_id : String
  pub allow_auto_topic_creation : Option Bool

-- `KAFKA_CONFIG`
abbrev pub config_client_id : String
config_client_id = "workflowhub-client"

abbrev pub config_brokers : Lookup → List String
config_brokers env = or_string (env "KAFKA_BROKERS") "kafka:9093" ∷ []

abbrev pub config_group_id : String
config_group_id = "notification-group"

-- `variable?.split(',') || KAFKA_CONFIG.BROKERS`: an array is truthy.
abbrev pub brokers_of : Lookup → Option String → List String
brokers_of env none = config_brokers env
brokers_of env (some s) = split_on b',' s

-- Of the task service, which reads `ConfigService`.
abbrev pub producer : Lookup → Lookup → Options
producer config env = record {
  client_id = config_client_id;
  brokers = brokers_of env (config "KAFKA_BROKERS");
  group_id = config_group_id;
  allow_auto_topic_creation = none;
}

abbrev pub notification_consumer : Lookup → Options
notification_consumer env = record {
  client_id = config_client_id;
  brokers = brokers_of env (env "KAFKA_BROKERS");
  group_id = config_group_id;
  allow_auto_topic_creation = some true;
}

abbrev pub analytics_consumer : Lookup → Options
analytics_consumer env = record {
  client_id = "analytics-client";
  brokers = brokers_of env (env "KAFKA_BROKERS");
  group_id = "analytics-group";
  allow_auto_topic_creation = some true;
}

-- What an operator sets: nothing, or hosts without commas; and the brokers that this is.
abbrev pub Hosts : Type 0
Hosts = Option (String × List String)

abbrev pub Whole : Hosts → Type 0
Whole none = Unit
Whole (some (host, hosts)) = AllLack b',' (host ∷ hosts)

abbrev pub written : Hosts → Option String
written none = none
written (some (host, hosts)) = some (join_with "," host hosts)

abbrev pub meant : Hosts → List String
meant none = "kafka:9093" ∷ []
meant (some (host, hosts)) = host ∷ hosts

brokers_of-written :
    (env : Lookup) (h : Hosts)
    → Whole h
    → env "KAFKA_BROKERS" ≡ written h
    → brokers_of env (written h) ≡ meant h
brokers_of-written env none w set = rw set
brokers_of-written env (some (host, hosts)) whole set = split_on-join_with "," host hosts whole

-- The producer and both consumers of `task.created` meet: where the variable is the same for all of
-- them, they all connect to the hosts that it was written from, in that order, if none of these has
-- a comma, and without it to the broker of the containers; and the two consumers are of different
-- groups, so that each of them gets every event.
pub brokers-written :
    (config env : Lookup) (h : Hosts)
    → Whole h
    → config "KAFKA_BROKERS" ≡ written h
    → env "KAFKA_BROKERS" ≡ written h
    → ((producer config env).brokers ≡ meant h)
      × ((notification_consumer env).brokers ≡ meant h)
      × ((analytics_consumer env).brokers ≡ meant h)
      × ((notification_consumer env).group_id ≢ (analytics_consumer env).group_id)
brokers-written config env h whole there here =
    let same = brokers_of-written env h whole here in
    (
      ap (brokers_of env) there ∙ same,
      ap (brokers_of env) here ∙ same,
      ap (brokers_of env) here ∙ same,
      λ e. absurd (cc e),
    )
