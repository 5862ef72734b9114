-- ===== src/Platform/Escalation.antt =====
-- Whoever registers chooses the roles of the account, and the gateway believes the token.
use aiself_healer.Common.{String, true, false, some, List, ◌≡◌, is_empty}
use aiself_healer.JsMap
use aiself_healer.AuthService.Server.State as Auth
use aiself_healer.AuthService.Server.State.{Env, App, Tokens, registered}
use aiself_healer.AuthService.Server.Handlers.{
  register, public_user, new_user, tokens_of, claims_of,
}
use aiself_healer.AuthService.Server.Accounts.{
  Gives, pending_of, register_new, register_finish-reply,
}
use aiself_healer.Gateway.Auth.{Request, loaded, includes, accept, jwt_options}
use aiself_healer.Gateway.Server.{Config, Readings}
use aiself_healer.Gateway.Server.Table.{IsAdmin}
use aiself_healer.Platform.Tokens.{claims_read, Bears, bearer-accept, IsTrusted, Agrees, IsFresh}

-- A registration of a new email whose body lists "super_admin" among the roles is granted, and with
-- the access token of the answer the gateway takes every request for one of a super admin until
-- the token expires, if the two services have the same issuer and audience.
pub register-IsAdmin :
    (config : Config) (key : config.Key) (env : Env)
    → IsTrusted config.jwt_verify key env.sign
    → ((c : Auth.Claims) → is_empty (env.sign c) ≡ false)
    → Agrees env (jwt_options config.env)
    → config.key ≡ loaded key
    → (app : App env) (r : Auth.Readings) (req : Auth.Request) (email password : String)
      (roles : List String)
    → Gives env app r req email password
    → JsMap.has email app.users ≡ false
    → req.roles ≡ some roles
    → includes roles "super_admin" ≡ true
    → (tokens : Tokens) × ((register env app r req).1
        ≡ registered
            (public_user (new_user env (pending_of env app r req email password) r))
            tokens)
      × ((at : Readings) (g : Request)
          → IsFresh env r at.verified_at
          → Bears g tokens.access_token
          → IsAdmin config at g)
register-IsAdmin config key env trusted filled agrees loads app r req email password roles given new
      asked admin =
    let pending = pending_of env app r req email password in
    let user = new_user env pending r in
    let admitted : includes user.roles "super_admin" ≡ true = rw asked admin in
    (
      tokens_of env r user,
      rw (register_new env app r req email password given new)
          (register_finish-reply env app r req pending).0,
      λ at g fresh b. (
        accept g (claims_read (claims_of env r user)),
        rw loads (
            bearer-accept config.jwt_verify key env trusted filled (jwt_options config.env) agrees
              user r at.verified_at g fresh b),
        unfold accept in admitted,
      ),
    )
