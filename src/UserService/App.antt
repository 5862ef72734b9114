-- ===== src/UserService/App.antt =====
-- services/user-service/src/server.js: the app with all its routes, and the counter of its hook
-- `onResponse`. Which route a request matches, and the text of the metrics, are Fastify's and the
-- metrics package's.
pub mod Series
use aiself_healer.Common.{ℕ, String, Option, none, some, List, [], ◌∷◌, text_or}
use aiself_healer.UserService.Server as Server
use aiself_healer.UserService.Server.{
  Object, Store, Registry, error, not_found, users, created, user, deleted, list_users, post_user,
  get_user, patch_user, delete_user, registry,
}

-- A request by the route that it matches, with its parameter and body; or a request that matches
-- none, with its method and URL.
pub data Call : Type 0 where
  health metrics list registered : Call
  create : Option Object → Call
  read : String → Call
  change : String → Option Object → Call
  remove : String → Call
  unmatched : String → String → Call

-- The header of the tenant, and the readings of a call: the random id and the dates.
pub record Readings : Type 0 where
  pub tenant : Option String
  pub uuid : String
  pub made : String
  pub updated : String
  pub public_url : Option String

pub data Answer : Type 0 where
  healthy measured : Answer
  registry_of : Registry → Answer
  reply : Server.Reply → Answer
  no_route : Answer

-- the labels of a response: the method, the pattern of the route or the URL, and the status
pub record Labels : Type 0 where
  pub method : String
  pub route : String
  pub status : ℕ

pub record Service : Type 0 where
  pub store : Store
  -- the labels that the counter was increased with, the latest first
  pub counted : List Labels

unfoldable pub answer : Store → Readings → Call → Store × Answer
answer store r health = (store, healthy)
answer store r metrics = (store, measured)
answer store r registered = (store, registry_of (registry r.public_url r.made))
answer store r list = (store, reply (list_users store r.tenant))
answer store r (create body) =
    let (store', result) = post_user store r.tenant r.uuid r.made r.updated body in
    (store', reply result)
answer store r (read id) = (store, reply (get_user store r.tenant id))
answer store r (change id body) =
    let (store', result) = patch_user store r.tenant id body r.updated in (store', reply result)
answer store r (remove id) =
    let (store', result) = delete_user store r.tenant id r.made in (store', reply result)
answer store r (unmatched method url) = (store, no_route)

abbrev pub status_of_reply : Server.Reply → ℕ
status_of_reply (error message) = 400
status_of_reply not_found = 404
status_of_reply (users us) = 200
status_of_reply (created u) = 201
status_of_reply (user u) = 200
status_of_reply (deleted id) = 200

abbrev pub status_of : Answer → ℕ
status_of healthy = 200
status_of measured = 200
status_of (registry_of r) = 200
status_of (reply result) = status_of_reply result
status_of no_route = 404

abbrev pub method_of : Call → String
method_of health = "GET"
method_of metrics = "GET"
method_of registered = "GET"
method_of list = "GET"
method_of (create body) = "POST"
method_of (read id) = "GET"
method_of (change id body) = "PATCH"
method_of (remove id) = "DELETE"
method_of (unmatched method url) = method

-- `req.routeOptions.url`, which a request that matches no route has not
abbrev pub pattern_of : Call → Option String
pattern_of health = some "/health"
pattern_of metrics = some "/metrics"
pattern_of registered = some "/registry"
pattern_of list = some "/users"
pattern_of (create body) = some "/users"
pattern_of (read id) = some "/users/:id"
pattern_of (change id body) = some "/users/:id"
pattern_of (remove id) = some "/users/:id"
pattern_of (unmatched method url) = none

-- `req.url`, where that is the label
abbrev pub url_of : Call → String
url_of (unmatched method url) = url
url_of _ = ""

unfoldable pub serve : Service → Readings → Call → Service × Answer
serve s r call =
    let (store, result) = answer s.store r call in
    (
      record {
        store = store;
        counted =
            record {
              method = method_of call;
              route = text_or (pattern_of call) (url_of call);
              status = status_of result;
            }
            ∷ s.counted;
      },
      result,
    )
