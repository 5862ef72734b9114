-- ===== src/Gateway/SocketHub.antt =====
-- services/api-gateway/src/socketHub.js: the snapshot that is served before there is any data, and
-- the forwarding of Kafka messages to the dashboards. `JSON.parse` is an argument; what it throws
-- leaves `eachMessage`.
use aiself_healer.Common.{
  ℕ, ◌+◌, ◌-◌, ◌*◌, max, String, Bool, Option, none, some, List, [], ◌∷◌, ltb, contains,
  remove_first, if◌then◌else◌, text_or, ◌&&◌, ◌||◌, truthy, not, every, ◌==◌,
}
use aiself_healer.Frontend.Snapshot.{Service}
use aiself_healer.Frontend.Shape.{Row, Edge, Snapshot, text, whole, hundredths, plain}

abbrev pub dashboard_topics : List String
dashboard_topics =
    "neuralmesh.anomaly.detected" ∷ "neuralmesh.healing.started" ∷ "neuralmesh.healing.complete"
    ∷ "neuralmesh.scale.event" ∷ "neuralmesh.service.health" ∷ "neuralmesh.chaos.started"
    ∷ "neuralmesh.chaos.completed" ∷ "neuralmesh.notification.sent" ∷ []

abbrev pub service_names : List String
service_names =
    "api-gateway" ∷ "auth-service" ∷ "user-service" ∷ "data-service" ∷ "worker-service"
    ∷ "ai-service" ∷ "metrics-aggregator" ∷ "healing-orchestrator" ∷ "notification-service"
    ∷ "chaos-service" ∷ "health-monitor" ∷ []

-- The `Number((index * 0.003).toFixed(3))` is a number of thousandths; `99 - index * 2` may be below
-- zero, where the greater of it and 72 is 72.
unfoldable pub synthetic_service : ℕ → String → Service ℕ
synthetic_service index name = record {
  id = name;
  name = name;
  health_score = max 72 (99 - index * 2);
  p99_latency_ms = 80 + index * 18;
  error_rate = index * 3;
  throughput_rps = 40 + index * 8;
  replicas = if contains "data" name then 3 else 1;
  status = if ltb 8 index then "degraded" else "healthy";
}

-- `names.map((name, index) => …)`
unfoldable pub services_from : ℕ → List String → List (Service ℕ)
services_from index [] = []
services_from index (name ∷ names) = synthetic_service index name ∷ services_from (index + 1) names

abbrev pub edge_ends : List (String × String)
edge_ends =
    ("api-gateway", "auth-service")
    ∷ ("api-gateway", "user-service")
    ∷ ("api-gateway", "data-service")
    ∷ ("data-service", "worker-service")
    ∷ ("metrics-aggregator", "ai-service")
    ∷ ("ai-service", "healing-orchestrator")
    ∷ ("healing-orchestrator", "notification-service")
    ∷ ("health-monitor", "healing-orchestrator")
    ∷ []

unfoldable pub edges_from : ℕ → List (String × String) → List Edge
edges_from index [] = []
edges_from index ((source, target) ∷ ends) =
    record { source = source; target = target; traffic = 20 + index * 10 }
    ∷ edges_from (index + 1) ends

abbrev demo_anomaly : String → Row
demo_anomaly time =
    ("event_id", text "demo-anomaly-1")
    ∷ ("service_id", text "data-service")
    ∷ ("score", hundredths 82)
    ∷ ("anomaly_type", text "p99_latency_spike")
    ∷ ("triggered_action", text "open_circuit_and_reroute")
    ∷ ("timestamp", text time)
    ∷ []

abbrev demo_healing : String → Row
demo_healing time =
    ("event_id", text "demo-healing-1")
    ∷ ("service_id", text "data-service")
    ∷ ("action", text "restart_container")
    ∷ ("before", text "unhealthy")
    ∷ ("after", text "healthy")
    ∷ ("model", text "isolation_forest+lstm")
    ∷ ("recovery_seconds", whole 18)
    ∷ ("timestamp", text time)
    ∷ []

abbrev demo_scaling : String → ℕ → ℕ → ℕ → ℕ → Row
demo_scaling id predicted actual replicas accuracy =
    ("service_id", text id)
    ∷ ("predicted_rps", whole predicted)
    ∷ ("actual_rps", whole actual)
    ∷ ("replicas", whole replicas)
    ∷ ("accuracy", hundredths accuracy)
    ∷ []

-- The clock is read three times: as it is, two minutes back, and a minute and a half back; the
-- dates are given as they print.
unfoldable pub synthetic_snapshot : String → String → String → Snapshot
synthetic_snapshot generated anomaly_time healing_time = record {
  generated_at = generated;
  services = services_from 0 service_names;
  edges = edges_from 0 edge_ends;
  anomalies = some (plain (demo_anomaly anomaly_time) ∷ []);
  healing = some (plain (demo_healing healing_time) ∷ []);
  scaling = some (
      plain (demo_scaling "data-service" 420 380 3 91)
      ∷ plain (demo_scaling "worker-service" 260 245 2 94)
      ∷ []);
}

-- What the start of the hub comes to: Kafka is not configured, the consumer runs on topics, or an
-- exception on the way was logged.
pub data Attached : Type 0 where
  snapshots_only : Attached
  consuming : List String → Attached
  disabled : Attached

-- Whether the consumer connects, subscribes to every topic, and runs.
unfoldable pub attach_socket_hub :
    Option String → Option String → Bool → (String → Bool) → Bool → Attached
attach_socket_hub brokers node_env connects subscribes runs =
    if not (truthy brokers) || (text_or node_env "" == "test")
    then snapshots_only
    else if connects && (every subscribes dashboard_topics && runs)
    then consuming dashboard_topics
    else disabled

-- What `eachMessage` emits: the name of the event and its payload, unless the value does not parse.
unfoldable pub each_message :
    {E : Type 0} → (String → Option E) → String → Option String → Option (String × E)
each_message parse topic value = elim (parse (text_or value "{}")) [
  | none ↦ none
  | some payload ↦ some (remove_first "neuralmesh." topic, payload)
]
