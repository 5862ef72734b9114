-- ===== src/Gateway/Server.antt =====
-- services/api-gateway/src/server.js: the chain of middleware and routes that a request runs
-- through. Express is an argument: which requests a route answers, and what a mounted proxy sees. A
-- request here is one that the cors package hands on: a preflight, which it answers itself before the
-- token check and the limiter, is none.
pub mod Table
pub mod Listing
pub mod Proxied
pub mod Throttle
pub mod Routed
use aiself_healer.Common.{
  ℕ, String, Bool, Option, none, some, List, [], ◌∷◌, if◌then◌else◌, text_or,
}
use aiself_healer.Gateway.MemoryRedis as Memory
use aiself_healer.Gateway.MemoryRedis.{MemoryRedis}
use aiself_healer.Gateway.RateLimit as Limit
use aiself_healer.Gateway.RateLimit.{
  rate_limit_middleware, limit_of, window_of, rate_limit_exceeded,
}
use aiself_healer.Gateway.Auth.{
  Request, Denial, missing_token, invalid_token, forbidden, PublicKey, Verified, next, deny, header,
  require_jwt, require_role, JwtOptions, jwt_options,
}
use aiself_healer.Gateway.Routing.{Route, RoutesCodec, get_routes, path_rewrite, sub_of}

-- The packages, the settings, and the routes that the proxies were attached with at the start.
pub record Config : Type 1 where
  pub Key : Type 0
  -- with the clock in milliseconds
  pub jwt_verify : JwtOptions → ℕ → String → Key → Verified
  pub key : PublicKey Key
  pub json : RoutesCodec
  pub env : String → Option String
  pub per_minute : Option ℕ
  -- whether a route of a method and a path answers a method and a path
  pub answers : String → String → String → String → Bool
  -- the path behind a prefix, where a path is under it
  pub mounted : String → String → Option String
  pub attached : List Route

pub record Readings : Type 0 where
  pub request_uuid : String
  pub verified_at : ℕ
  pub limited_at : ℕ
  pub nonce : String
  -- the clock in the read or the write of the routes
  pub routes_at : ℕ

pub data Reply : Type 0 where
  healthy ready metrics snapshot : Reply
  denied : Denial → Reply
  rate_limited : ℕ → Reply
  routes : List Route → Reply
  updated : List Route → Reply
  -- the target, the path, the request's id and the request that are handed to the proxy
  proxied : String → String → String → Request → Reply
  not_found : String → Reply

abbrev pub status_of_denial : Denial → ℕ
status_of_denial missing_token = 401
status_of_denial (invalid_token message) = 401
status_of_denial (forbidden roles) = 403

-- The status that the gateway sets; a request that it hands on has that of the service.
unfoldable pub status_of : Reply → ℕ → ℕ
status_of (denied denial) upstream = status_of_denial denial
status_of (rate_limited reset) upstream = 429
status_of (not_found path) upstream = 404
status_of (proxied target path id req) upstream = upstream
status_of healthy upstream = 200
status_of ready upstream = 200
status_of metrics upstream = 200
status_of snapshot upstream = 200
status_of (routes rs) upstream = 200
status_of (updated rs) upstream = 200

-- `req.body.routes || []`
abbrev pub routes_or_empty : Option (List Route) → List Route
routes_or_empty none = []
routes_or_empty (some rs) = rs

-- `jwtVerify` with its options, at the time of the check
abbrev pub verify_at : (config : Config) → Readings → String → config.Key → Verified
verify_at config r = config.jwt_verify (jwt_options config.env) r.verified_at

module _ (config : Config) where
  open config use {Key, key, json, env, per_minute, answers, mounted, attached}

  -- the first proxy whose prefix the path is under, or the 404 behind them
  unfoldable pub proxy_or_404 : List Route → String → Request → Reply
  proxy_or_404 [] id req = not_found req.path
  proxy_or_404 (route ∷ rest) id req =
      let later = proxy_or_404 rest id req in
      elim (mounted route.prefix req.path) [
        | none ↦ later
        | some path ↦ proxied route.target (path_rewrite route path) id req
      ]

  unfoldable pub list_routes : MemoryRedis → Readings → Request → MemoryRedis × Reply
  list_routes redis r req = elim (require_role ("super_admin" ∷ "operator" ∷ []) req) [
    | deny d ↦ (redis, denied d)
    | next _ ↦
        let (raw, redis') = Memory.get redis r.routes_at "gateway:routes" in
        (redis', routes (get_routes json env raw))
  ]

  unfoldable pub put_routes :
      MemoryRedis → Readings → Request → Option (List Route) → MemoryRedis × Reply
  put_routes redis r req body = elim (require_role ("super_admin" ∷ []) req) [
    | deny d ↦ (redis, denied d)
    | next _ ↦
        let rs = routes_or_empty body in
        (
          (Memory.set redis r.routes_at "gateway:routes" (json.encode rs) (some "EX")
              (some 3600)).1,
          updated rs,
        )
  ]

  -- the routes behind the middleware, in their order
  unfoldable pub dispatch :
      MemoryRedis → Readings → String → Request → Option (List Route) → MemoryRedis × Reply
  dispatch redis r id req body =
      if answers "GET" "/health" req.method req.path
      then (redis, healthy)
      else if answers "GET" "/ready" req.method req.path
      then (redis, ready)
      else if answers "GET" "/metrics" req.method req.path
      then (redis, metrics)
      else if answers "GET" "/api/v1/dashboard/snapshot" req.method req.path
      then (redis, snapshot)
      else if answers "GET" "/api/v1/routes" req.method req.path
      then list_routes redis r req
      else if answers "PUT" "/api/v1/routes" req.method req.path
      then put_routes redis r req body
      else (redis, proxy_or_404 attached id req)

  -- the limiter, and what is behind it
  unfoldable pub limited :
      MemoryRedis → Readings → String → Request → Option (List Route) → MemoryRedis × Reply
  limited redis r id req body =
      let (remaining, reset, verdict, redis') =
        rate_limit_middleware redis r.limited_at r.nonce (sub_of req.user) req.ip
          (limit_of none per_minute) (window_of none) in
      elim verdict [
        | rate_limit_exceeded after ↦ (redis', rate_limited after)
        | Limit.next ↦ dispatch redis' r id req body
      ]

  unfoldable pub handle :
      MemoryRedis → Readings → Request → Option (List Route) → MemoryRedis × Reply
  handle redis r req body =
      let id = text_or (header "x-request-id" req) r.request_uuid in
      elim (require_jwt (verify_at config r) key req) [
        | deny d ↦ (redis, denied d)
        | next req' ↦ limited redis r id req' body
      ]
