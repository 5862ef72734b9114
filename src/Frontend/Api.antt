-- ===== src/Frontend/Api.antt =====
-- frontend/src/lib/api.js, the state of frontend/src/App.jsx that its calls change, and the options
-- of frontend/src/main.jsx for the queries. What
-- `fetch` does is an argument: it throws, or answers with whether the status is one of success and
-- the body, where that parses.
pub mod Shown
use aiself_healer.Common.{ℕ, String, Bool, true, false, Option, none, some, List, [], ◌∷◌, text_or}
use aiself_healer.Frontend.Snapshot.{Service}
use aiself_healer.Frontend.Shape.{Row, Event, Edge, Snapshot, text, whole, hundredths, plain}

pub data Fetched (A : Type 0) : Type 0 where
  thrown : Fetched A
  answered : Bool → Option A → Fetched A

-- What a promise comes to.
pub data Settled (A : Type 0) : Type 0 where
  resolved : A → Settled A
  rejected : Settled A

abbrev service : String → ℕ → ℕ → ℕ → ℕ → ℕ → String → Service ℕ
service name score p99 errors rps replicas status = record {
  id = name;
  name = name;
  health_score = score;
  p99_latency_ms = p99;
  error_rate = errors;
  throughput_rps = rps;
  replicas = replicas;
  status = status;
}

abbrev fallback_services : List (Service ℕ)
fallback_services =
    service "api-gateway" 98 86 2 120 2 "healthy"
    ∷ service "auth-service" 96 64 1 84 2 "healthy"
    ∷ service "user-service" 94 91 4 96 2 "healthy"
    ∷ service "data-service" 78 420 41 310 3 "degraded"
    ∷ service "worker-service" 87 150 11 180 2 "healthy"
    ∷ service "ai-service" 91 210 8 48 1 "healthy"
    ∷ service "metrics-aggregator" 89 134 6 260 2 "healthy"
    ∷ service "healing-orchestrator" 92 105 3 34 1 "healthy"
    ∷ service "notification-service" 84 188 14 40 1 "healthy"
    ∷ service "chaos-service" 99 72 0 6 1 "healthy"
    ∷ []

abbrev edge : String → String → ℕ → Edge
edge source target traffic = record { source = source; target = target; traffic = traffic }

abbrev fallback_edges : List Edge
fallback_edges =
    edge "api-gateway" "auth-service" 85
    ∷ edge "api-gateway" "user-service" 70
    ∷ edge "api-gateway" "data-service" 120
    ∷ edge "data-service" "worker-service" 58
    ∷ edge "metrics-aggregator" "ai-service" 95
    ∷ edge "ai-service" "healing-orchestrator" 28
    ∷ edge "healing-orchestrator" "notification-service" 24
    ∷ []

abbrev fallback_anomaly : String → Row
fallback_anomaly time =
    ("event_id", text "a1")
    ∷ ("service_id", text "data-service")
    ∷ ("score", hundredths 84)
    ∷ ("anomaly_type", text "latency_spike")
    ∷ ("triggered_action", text "restart_or_reroute")
    ∷ ("timestamp", text time)
    ∷ []

abbrev fallback_healing : String → Row
fallback_healing time =
    ("event_id", text "h1")
    ∷ ("service_id", text "data-service")
    ∷ ("action", text "restart_container")
    ∷ ("before", text "degraded")
    ∷ ("after", text "healthy")
    ∷ ("recovery_seconds", whole 18)
    ∷ ("model", text "isolation_forest+lstm")
    ∷ ("timestamp", text time)
    ∷ []

abbrev scaling_row : String → ℕ → ℕ → ℕ → ℕ → Row
scaling_row id predicted actual replicas accuracy =
    ("service_id", text id)
    ∷ ("predicted_rps", whole predicted)
    ∷ ("actual_rps", whole actual)
    ∷ ("replicas", whole replicas)
    ∷ ("accuracy", hundredths accuracy)
    ∷ []

-- The three dates are read when the module is loaded.
unfoldable pub fallback_snapshot : String → String → String → Snapshot
fallback_snapshot generated anomaly_time healing_time = record {
  generated_at = generated;
  services = fallback_services;
  edges = fallback_edges;
  anomalies = some (plain (fallback_anomaly anomaly_time) ∷ []);
  healing = some (plain (fallback_healing healing_time) ∷ []);
  scaling = some (
      plain (scaling_row "data-service" 430 390 3 91)
      ∷ plain (scaling_row "worker-service" 260 245 2 94)
      ∷ []);
}

-- `return response.json()` does not wait, so the `catch` does not see a body that does not parse.
unfoldable pub get_snapshot : Snapshot → Fetched Snapshot → Settled Snapshot
get_snapshot fallback thrown = resolved fallback
get_snapshot fallback (answered false body) = resolved fallback
get_snapshot fallback (answered true (some snapshot)) = resolved snapshot
get_snapshot fallback (answered true none) = rejected

-- what the chaos service answers; a field may be absent
pub record ChaosRun : Type 0 where
  pub experiment : Option String
  pub service_name : Option String
  pub status : Option String
  pub result : Option String

unfoldable pub trigger_chaos : Fetched ChaosRun → Settled ChaosRun
trigger_chaos thrown = rejected
trigger_chaos (answered false body) = rejected
trigger_chaos (answered true none) = rejected
trigger_chaos (answered true (some run)) = resolved run

-- the state of `App`, apart from the store of live events
pub record App : Type 0 where
  pub active : String
  pub last_chaos : Option ChaosRun

abbrev pub opened : App
opened = record { active = "map"; last_chaos = none }

abbrev pub dry_run_local : ChaosRun
dry_run_local = record {
  experiment = none;
  service_name = none;
  status = some "dry-run-local";
  result = some "Chaos service unavailable from browser context";
}

-- `onSuccess` and `onError` of the mutation
unfoldable pub chaos_settled : App → Settled ChaosRun → App
chaos_settled app (resolved run) = record app { last_chaos = some run }
chaos_settled app rejected = record app { last_chaos = some dry_run_local }

-- the default options of the queries: how often a failure is tried again, and the milliseconds
-- between two polls
pub record QueryOptions : Type 0 where
  pub retry : ℕ
  pub refetch_interval : ℕ

abbrev pub query_options : QueryOptions
query_options = record { retry = 1; refetch_interval = 10000 }

-- `const { data = fallbackSnapshot } = useQuery(…)`
abbrev pub data_or : Snapshot → Option Snapshot → Snapshot
data_or fallback none = fallback
data_or fallback (some snapshot) = snapshot

-- the line on the last run
abbrev pub chaos_line : ChaosRun → String × String × Option String
chaos_line run =
    (text_or run.experiment "chaos", text_or run.service_name "selected-service", run.result)
