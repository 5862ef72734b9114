-- ===== src/Tests/PlatformRuns.antt =====
-- The authentication service, the gateway and the user service together, at small inputs.
use aiself_healer.Common.{String, Option, some, none, [], ◌∷◌, ◌≡◌, refl, after_prefix, ◌<>◌}
use aiself_healer.JsMap
use aiself_healer.Gateway.MemoryRedis as Memory
use aiself_healer.Gateway.MemoryRedis.{init}
use aiself_healer.Gateway.Auth.{Request, loaded, is_public_route, accept}
use aiself_healer.Gateway.Routing.{proxy_req}
use aiself_healer.Gateway.Server.{Config, Readings, handle, proxied}
use aiself_healer.Gateway.Server.Table.{IsAdmin}
use aiself_healer.AuthService.Server.State as Auth
use aiself_healer.AuthService.Server.State.{App, User, Tokens, registered}
use aiself_healer.AuthService.Server.Handlers.{
  register, public_user, new_user, tokens_of, claims_of,
}
use aiself_healer.AuthService.Server.Accounts.{pending_of}
use aiself_healer.AuthService.TokenStore as Store
use aiself_healer.UserService.Isolation as Users
use aiself_healer.UserService.Isolation.{deletes}
use aiself_healer.Platform.Tokens.{Bears, claims_read, IsFresh}
use aiself_healer.Platform.Escalation.{register-IsAdmin}
use aiself_healer.Tests.Signing.{verify, verify-sign, signing_env, sign-filled, agrees}
use aiself_healer.Tests.RoutingRuns.{proxying, one_route}
use aiself_healer.Tests.RoutingRuns as Routing
use aiself_healer.Tests.AuthRuns.{readings, bob, credentials}

abbrev config : Config
config = record {
  Key = String;
  jwt_verify = verify;
  key = loaded "secret";
  json = proxying.json;
  env = proxying.env;
  per_minute = none;
  answers = proxying.answers;
  mounted = proxying.mounted;
  attached = one_route;
}

abbrev app : App signing_env
app = record { users = []; store = Store.init; shared = some Memory.init; counted = []; audit = [] }

abbrev claims_admin : Auth.Request
claims_admin = record credentials { roles = some ("super_admin" ∷ []) }

register-IsAdmin_example :
    (tokens : Tokens) × ((register signing_env app (readings "1") claims_admin).1
      ≡ registered
          (public_user (
            new_user signing_env
              (pending_of signing_env app (readings "1") claims_admin "bob@example.com" "secret")
              (readings "1")))
          tokens)
    × ((at : Readings) (g : Request)
        → IsFresh signing_env (readings "1") at.verified_at
        → Bears g tokens.access_token
        → IsAdmin config at g)
unfolding JsMap.has
register-IsAdmin_example =
    register-IsAdmin config "secret" signing_env (verify-sign "secret") sign-filled agrees refl app
      (readings "1") claims_admin "bob@example.com" "secret" ("super_admin" ∷ [])
      (record { email_given = refl; password_given = refl; filled = refl }) refl refl refl

abbrev eve : User
eve = record bob { id = "user_9"; tenant_id = "t2" }

abbrev pub request_of : User → Request
request_of account = record {
  method = "GET";
  path = "/x";
  ip = none;
  headers =
      (
        "authorization",
        some ("Bearer " <> (tokens_of signing_env (readings "1") account).access_token),
      )
      ∷ [];
  access_token = none;
  user = none;
}

abbrev accepted : User → Request
accepted account =
    accept (request_of account) (claims_read (claims_of signing_env (readings "1") account))

pub bears :
    (account : User)
    → Bears (request_of account) (tokens_of signing_env (readings "1") account).access_token
unfolding is_public_route after_prefix JsMap.get
bears account = record { closed = refl; bearer = refl }

abbrev IsHanded : User → Type 0
IsHanded account =
    (handle config init (Routing.readings 1000) (request_of account) none).1
    ≡ proxied "http://x" "/" "r" (accepted account)

abbrev erases : Users.Request
erases = deletes "profile_1" "2026-01-02"

abbrev header_of : User → Option String
header_of account =
    JsMap.get "x-tenant-id" (proxy_req "r" (accepted account).user (("x-tenant-id", "t9") ∷ []))
