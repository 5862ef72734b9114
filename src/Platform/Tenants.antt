-- ===== src/Platform/Tenants.antt =====
-- The tenant that the user service reads of a request that comes through the gateway.
use aiself_healer.Common.{
  String, false, Option, some, none, List, ◌≡◌, ◌∙◌, refl, sym, ap, arith, is_empty,
}
use aiself_healer.JsMap
use aiself_healer.JsMap.{JsMap}
use aiself_healer.AuthService.Server.State as Auth
use aiself_healer.AuthService.Server.State.{Env, User}
use aiself_healer.AuthService.Server.Handlers.{tokens_of, claims_of}
use aiself_healer.Gateway.MemoryRedis.{MemoryRedis}
use aiself_healer.Gateway.Auth.{Claims, Request, Outcome, deny, loaded, next, accept, jwt_options}
use aiself_healer.Gateway.Routing.{Route, proxy_req}
use aiself_healer.Gateway.Routing.Headers.{get-proxy_req}
use aiself_healer.Gateway.Server.{Config, Readings, proxied, handle}
use aiself_healer.Gateway.Server.Proxied.{handle_outcome}
use aiself_healer.Platform.Tokens.{claims_read, Bears, bearer-accept, IsTrusted, Agrees, IsFresh}
use aiself_healer.UserService.Isolation as Users

abbrev user_of : Outcome → Option Claims
user_of (next req) = req.user
user_of (deny d) = none

proxy_req-tenant :
    (id : String) (claims : Claims) (copied : JsMap String) (tenant : String)
    → claims.tenant_id ≡ some tenant
    → is_empty tenant ≡ false
    → JsMap.get "x-tenant-id" (proxy_req id (some claims) copied) ≡ some tenant
proxy_req-tenant id claims copied tenant given named =
    rw (get-proxy_req id (some claims) copied "x-tenant-id") (rw given (ground (arith, named)))

module _ (config : Config) (key : config.Key) (env : Env)
    (trusted : IsTrusted config.jwt_verify key env.sign)
    (filled : (c : Auth.Claims) → is_empty (env.sign c) ≡ false)
    (agrees : Agrees env (jwt_options config.env)) (loads : config.key ≡ loaded key) where
  -- The gateway hands the request on with this tenant header, whatever headers the proxy copied.
  pub record Forwards (account : User) (tenant : Option String) : Type 0 where
    pub redis : MemoryRedis
    pub readings : Readings
    pub issued : Auth.Readings
    pub request : Request
    pub body : Option (List Route)
    pub target : String
    pub path : String
    pub id : String
    pub out : Request
    pub copied : JsMap String
    pub fresh : IsFresh env issued readings.verified_at
    pub bears : Bears request (tokens_of env issued account).access_token
    pub handed : (handle config redis readings request body).1 ≡ proxied target path id out
    pub read : tenant ≡ JsMap.get "x-tenant-id" (proxy_req id out.user copied)

  -- What the user service reads as the tenant is that of the account whose token the request
  -- bears, if it is not empty, whatever the client sent.
  pub Forwards-tenant :
      (account : User) (tenant : Option String)
      → is_empty account.tenant_id ≡ false
      → Forwards account tenant
      → tenant ≡ some account.tenant_id
  unfolding accept
  Forwards-tenant account tenant named f =
      let claims = claims_read (claims_of env f.issued account) in
      let outcome =
        handle_outcome config f.redis f.readings f.request f.out f.body f.target f.path f.id
          (next (accept f.request claims))
          (rw loads (
            bearer-accept config.jwt_verify key env trusted filled (jwt_options config.env) agrees
              account f.issued f.readings.verified_at f.request f.fresh f.bears))
          f.handed in
      f.read
      ∙ (ap (λ u. JsMap.get "x-tenant-id" (proxy_req f.id u f.copied)) (sym (ap user_of outcome))
          ∙ proxy_req-tenant f.id claims f.copied account.tenant_id refl named)
