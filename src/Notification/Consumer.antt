-- ===== src/Notification/Consumer.antt =====
-- services/notification-service/src/server.js: the mail transport that is set up, and the consumer
-- of Kafka with what it does to a message. `JSON.parse` at alerts is an argument.
use aiself_healer.Common.{
  String, Bool, ◌&&◌, ◌||◌, not, Option, none, some, List, [], ◌∷◌, ◌==◌, every, if◌then◌else◌,
  text_or, truthy,
}
use aiself_healer.Notification.Dedupe.{Alert}
use aiself_healer.Notification.Deliver.{Message, Readings, Service, on_message}

-- A transport that only prints, or one to a mail host: its host, its port as it is written, and
-- the user and the password.
pub data Transport : Type 0 where
  prints : Transport
  smtp : String → String → Option (String × Option String) → Transport

unfoldable pub create_transport : (String → Option String) → Transport
create_transport env = elim (env "SMTP_HOST") [
  | none ↦ prints
  | some host ↦
      if truthy (some host)
      then smtp host (text_or (env "SMTP_PORT") "587") (
          if truthy (env "SMTP_USER")
          then some (text_or (env "SMTP_USER") "", env "SMTP_PASSWORD")
          else none)
      else prints
]

abbrev pub alert_topics : List String
alert_topics =
    "neuralmesh.anomaly.detected" ∷ "neuralmesh.healing.complete" ∷ "neuralmesh.healing.failed"
    ∷ "neuralmesh.chaos.started" ∷ []

-- What the start of the consumer comes to: it is not configured, it runs on topics, or an exception
-- on the way was logged.
pub data Started : Type 0 where
  unconfigured : Started
  consuming : List String → Started
  disabled : Started

unfoldable pub start_kafka_consumer :
    Option String → Option String → Bool → (String → Bool) → Bool → Started
start_kafka_consumer brokers node_env connects subscribes runs =
    if not (truthy brokers) || text_or node_env "" == "test"
    then unconfigured
    else if connects && (every subscribes alert_topics && runs)
    then consuming alert_topics
    else disabled

module _ (slack_url : Option String) (takes : Message → Bool) (parse : String → Option Alert) where
  -- `eachMessage`: none where it throws, as it does for a message with no value or with one that
  -- does not parse
  unfoldable pub each_message : Service → Readings → String → Option String → Option Service
  each_message s r topic none = none
  each_message s r topic (some value) = elim (parse value) [
    | none ↦ none
    | some alert ↦ some (on_message slack_url takes s r topic alert)
  ]

  abbrev pub parsed : Option String → Option Alert
  parsed none = none
  parsed (some value) = parse value
