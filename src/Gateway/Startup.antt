-- ===== src/Gateway/Startup.antt =====
-- services/api-gateway/src/server.js: the Redis that the gateway works with, the app that is created
-- on it, and the requests that it counts and times; the durations are the metrics package's.
pub mod Restart
use aiself_healer.Common.{ℕ, String, ◌||◌, Option, List, ◌∷◌, ◌==◌, if◌then◌else◌, text_or}
use aiself_healer.Gateway.MemoryRedis as Memory
use aiself_healer.Gateway.MemoryRedis.{MemoryRedis}
use aiself_healer.Gateway.Auth.{header}
use aiself_healer.Gateway.Routing.{get_routes}
use aiself_healer.Gateway.Server.{Config, Reply, status_of}
use aiself_healer.Gateway.Server.Listing.{Input, respond}

-- the client of the process's own, or one that is to connect to a URL
pub data Client : Type 0 where
  in_memory : Client
  remote : String → Client

unfoldable pub create_redis : (String → Option String) → Client
create_redis env =
    if text_or (env "NODE_ENV") "" == "test" || text_or (env "DISABLE_REDIS") "" == "true"
    then in_memory
    else remote (text_or (env "REDIS_URL") "redis://localhost:6379/0")

-- `attachProxyRoutes(app, await getRoutes(redis))`: the proxies are attached once, with the routes
-- that Redis holds at the start.
unfoldable pub create_app : Config → MemoryRedis → ℕ → Config × MemoryRedis
create_app config redis now =
    let (raw, redis') = Memory.get redis now "gateway:routes" in
    (record config { attached = get_routes config.json config.env raw }, redis')

-- the labels of the counter of requests
pub record Labels : Type 0 where
  pub method : String
  pub route : String
  pub status : ℕ

pub record Instance : Type 0 where
  pub redis : MemoryRedis
  -- the labels that the counter was increased with, the latest first
  pub requests : List Labels
  -- the routes at which the histogram of durations observed one, the latest first
  pub latency : List String

-- What goes back: the header `X-Request-ID`, and the reply.
pub record Response : Type 0 where
  pub request_id : String
  pub reply : Reply

-- A request from the first of the app's own middleware to `finish`; a request that is handed on has
-- the status of the service. The histogram has the path of the request, the counter the path that is
-- left of it at the end: within a mounted proxy Express keeps only what is behind the prefix.
unfoldable pub exchange : Config → Instance → Input → ℕ → String → Instance × Response
exchange config app c upstream path_left =
    let (redis, reply) = respond config app.redis c in
    (
      record {
        redis = redis;
        requests =
            record {
              method = c.request.method;
              route = path_left;
              status = status_of reply upstream;
            }
            ∷ app.requests;
        latency = c.request.path ∷ app.latency;
      },
      record {
        request_id = text_or (header "x-request-id" c.request) c.readings.request_uuid;
        reply = reply;
      },
    )
