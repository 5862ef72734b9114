-- ===== src/Gateway/Routing.antt =====
-- services/api-gateway/src/routing.js: the routes, and what a proxied request is turned into.
pub mod Headers
use aiself_healer.Common.{
  ℕ, String, Bool, true, Option, none, some, List, [], ◌∷◌, ◌<>◌, ◌==◌, ◌≡◌, false, map,
  if◌then◌else◌, is_empty, truthy, text_or, join_commas,
}
use aiself_healer.JsMap
use aiself_healer.JsMap.{JsMap}
use aiself_healer.Gateway.Auth.{Claims}

pub record Route : Type 0 where
  pub prefix : String
  pub target : String
  pub prepend : Option String

-- `JSON.stringify` and `JSON.parse` at lists of routes; `none` is the exception.
pub record RoutesCodec : Type 0 where
  pub encode : List Route → String
  pub decode : String → Option (List Route)
  pub decode-encode : (routes : List Route) → decode (encode routes) ≡ some routes
  pub encode-filled : (routes : List Route) → is_empty (encode routes) ≡ false

-- the routes under the settings of the environment
unfoldable pub default_routes : (String → Option String) → List Route
default_routes env =
    let route : String → String → String → Route = λ prefix setting url. record {
      prefix = prefix;
      target = text_or (env setting) url;
      prepend = none;
    } in
    record (route "/api/v1/auth" "AUTH_SERVICE_URL" "http://localhost:3001") {
      prepend = some "/auth";
    }
    ∷ record (route "/api/v1/users" "USER_SERVICE_URL" "http://localhost:3002") {
      prepend = some "/users";
    }
    ∷ route "/api/v1/data" "DATA_SERVICE_URL" "http://localhost:8001"
    ∷ route "/api/v1/jobs" "WORKER_SERVICE_URL" "http://localhost:8002"
    ∷ route "/api/v1/ai" "AI_SERVICE_URL" "http://localhost:8003"
    ∷ route "/api/v1/metrics" "METRICS_AGGREGATOR_URL" "http://localhost:8004"
    ∷ route "/api/v1/healing" "HEALING_ORCHESTRATOR_URL" "http://localhost:8005"
    ∷ route "/api/v1/chaos" "CHAOS_SERVICE_URL" "http://localhost:8006"
    ∷ route "/api/v1/notifications" "NOTIFICATION_SERVICE_URL" "http://localhost:3003"
    ∷ route "/api/v1/health-monitor" "HEALTH_MONITOR_URL" "http://localhost:8090"
    ∷ []

-- the routes for what Redis holds under "gateway:routes"
unfoldable pub get_routes : RoutesCodec → (String → Option String) → Option String → List Route
get_routes json env none = default_routes env
get_routes json env (some configured) =
    if is_empty configured
    then default_routes env
    else (elim (json.decode configured) [ none ↦ default_routes env | some routes ↦ routes ])

-- `pathRewrite`, on the path behind the prefix
unfoldable pub path_rewrite : Route → String → String
path_rewrite route path =
    if truthy route.prepend
    then text_or route.prepend "" <> (if path == "/" then "" else path)
    else path

-- `if (value) proxyReq.setHeader(name, value)`; a header's name is kept in lower case
abbrev pub set_header : String → Option String → JsMap String → JsMap String
set_header name none headers = headers
set_header name (some value) headers =
    if is_empty value then headers else JsMap.set name value headers

abbrev pub sub_of : Option Claims → Option String
sub_of none = none
sub_of (some claims) = claims.sub

abbrev pub tenant_of : Option Claims → Option String
tenant_of none = none
tenant_of (some claims) = claims.tenant_id

-- an empty list is truthy, so the header is set to ""
abbrev pub set_roles : Option Claims → JsMap String → JsMap String
set_roles none headers = headers
set_roles (some claims) headers = elim claims.roles [
  | none ↦ headers
  | some roles ↦ JsMap.set "x-user-roles" (join_commas roles) headers
]

-- `on.proxyReq`, on the headers that the proxy has copied
unfoldable pub proxy_req : String → Option Claims → JsMap String → JsMap String
proxy_req request_id user headers = set_roles user (
    set_header "x-tenant-id" (tenant_of user)
      (set_header "x-user-id" (sub_of user) (set_header "x-request-id" (some request_id) headers)))

-- The options of the proxy of a route; the package takes every path of the prefix.
pub record Proxy : Type 0 where
  pub prefix : String
  pub target : String
  pub change_origin : Bool
  pub path_rewrite : String → String
  pub proxy_timeout : ℕ
  pub timeout : ℕ

-- `Number(process.env.GATEWAY_PROXY_TIMEOUT_MS || 30000)`
abbrev pub timeout_of : Option ℕ → ℕ
timeout_of none = 30000
timeout_of (some ms) = ms

abbrev pub proxy_of : ℕ → Route → Proxy
proxy_of ms route = record {
  prefix = route.prefix;
  target = route.target;
  change_origin = true;
  path_rewrite = path_rewrite route;
  proxy_timeout = ms;
  timeout = ms;
}

-- the proxies in the order in which they are attached
unfoldable pub attach_proxy_routes : Option ℕ → List Route → List Proxy
attach_proxy_routes setting routes = map (proxy_of (timeout_of setting)) routes

-- The reply to a request whose service does not answer.
pub record Unavailable : Type 0 where
  pub status : ℕ
  pub error : String
  pub service : String

-- `on.error`: nothing is sent where the headers already are
unfoldable pub proxy_error : Route → Bool → Option Unavailable
proxy_error route headers_sent =
    if headers_sent
    then none
    else some (record { status = 502; error = "upstream_unavailable"; service = route.target })
