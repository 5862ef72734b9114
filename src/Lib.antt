-- ===== src/Lib.antt =====
-- The JavaScript of the platform: the API gateway, the authentication, notification and user
-- services behind it, and the state of the dashboard. A request reaches the gateway, which
-- checks its token (or lets a public route pass), writes the identity of the token to the
-- headers, counts the call against the limit of its caller, and passes it on; the services trust
-- those headers. The authentication service makes the tokens; its refresh tokens are in a map of
-- the process and, where there is one, in Redis. The gateway forwards the events of Kafka
-- to the dashboards, which keep them, and merge those on health into the snapshot that they ask
-- the gateway for; the notification service alerts on some of these events.
--
-- Which file models which part:
--   services/api-gateway/src/memoryRedis.js            Gateway/MemoryRedis
--   services/api-gateway/src/rateLimit.js              Gateway/RateLimit, .../Remote
--   services/api-gateway/src/auth.js                   Gateway/Auth, Gateway/Auth/Keys
--   services/api-gateway/src/routing.js                Gateway/Routing
--   services/api-gateway/src/socketHub.js              Gateway/SocketHub
--   services/api-gateway/src/server.js                 Gateway/Server, Gateway/Startup
--   services/auth-service/src/rbac.js                  AuthService/Rbac
--   services/auth-service/src/tokenStore.js            AuthService/TokenStore
--   services/auth-service/src/server.js                AuthService/Server/State, .../Handlers,
--                                                      AuthService/Startup
--   services/notification-service/src/server.js        Notification/Dedupe, .../Deliver,
--                                                      Notification/Consumer, .../App
--   services/user-service/src/server.js                UserService/Server, UserService/App
--   frontend/src/hooks/useRealtime.js                  Frontend/Realtime
--   frontend/src/lib/api.js                            Frontend/Api, Frontend/Shape
--   frontend/src/main.jsx                              Frontend/Api
--   frontend/src/App.jsx                               Frontend/Snapshot, Frontend/Api,
--                                                      Frontend/View/Page, Frontend/Session
--   frontend/src/pages, frontend/src/components        Frontend/Rows, Frontend/Overview,
--                                                      Frontend/View
-- Platform holds what the parts do together: the tokens of the authentication service at the
-- gateway, the user service behind it, the way of an event from Kafka to the dashboard, and the
-- dashboard's calls of the gateway.
-- What a component of the dashboard returns is an element of Frontend/Markup, with its properties,
-- its handlers among them, and its children; Frontend/Session is the open dashboard, whose inputs
-- are what the user does with these handlers, messages of the socket, polls, and ends of experiments.
-- A function has the name of the source in snake case: `checkRateLimit` is `check_rate_limit`,
-- `saveRefreshToken` is `save_refresh_token`; a route's handler has the name of what it does:
-- `POST /auth/refresh` is `refresh`, `PATCH /users/:id` is `patch_user`. The other files hold
-- proofs, and Tests holds runs at concrete inputs. JsMap is JavaScript's `Map` and `Set` with
-- text keys, in insertion order; Common has the numbers, lists and texts that the models share.
--
-- State is passed explicitly: a handler takes the state and the readings of its run (clock,
-- random values), and returns the state, the reply and the cookie. Each reading of a clock is an
-- argument of its own, since the clock moves between two of them. An exception that no handler
-- catches is a value (`crashed`, `thrown`). Where a handler waits on the way, as registration does
-- for the hash of the password, login for its comparison, and refresh for the session, what follows
-- is a function of its own (`register_finish`, `login_finish`, `renew`), so that other requests can
-- stand before it. Other waits, as for the write of a token to Redis, are not split.
--
-- Packages are arguments. Redis is the record `RedisClient` of Redis.antt, with the documented
-- behaviour of `get`, `set` with a lifetime, and `del`; the in-memory Redis of the gateway fills
-- it in Gateway/MemoryRedis/Client. The reading and writing of JSON at a session is `Codec`,
-- bcrypt and the signing of tokens are fields of `Env`, the check of a signature and the fetching
-- of a key are arguments of the functions that use them, as are the mail transport and the
-- webhooks. The check of a token is asked for an issuer and an audience at a time, and is relied
-- on only for tokens of these that have not expired. The gateway's chain takes Express, which
-- matches methods and paths, in its `Config`. `fetch`, the query package and `JSON.parse` are
-- arguments where the dashboard, the hub and the consumer use them, and so is what the pipeline of
-- a Redis that can fail gives. React draws the page anew from its state, and the state of a
-- component lasts as long as it is drawn.
--
-- Bounds: times are milliseconds as natural numbers, and a lower bound that the source computes
-- below zero is an integer. The retry loop of the key has the ten attempts of the source as its
-- fuel. The fields of a body to the authentication service are texts or absent; a stored user of
-- the user service is a map from property names to values, since a PATCH can write any of them,
-- `__proto__` excepted, which JavaScript treats apart. The figures of a snapshot are whole numbers,
-- an error rate in thousandths and a score or an accuracy in hundredths; the average on the
-- dashboard is kept as a sum and a count.
--
-- Not modelled: the services in Python and Go, the preflight requests that the cors package
-- answers, what the chart, graph and icon packages draw, style sheets, the durations that are
-- observed, logging, the key set that jose makes of the public key, the start of the servers, and
-- routes of the authentication service that answer with a constant or only call a package.
pub mod Common
pub mod JsMap
pub mod Redis
pub mod Gateway
pub mod AuthService
pub mod Notification
pub mod UserService
pub mod Tests
pub mod Frontend
pub mod Platform
