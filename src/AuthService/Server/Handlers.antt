-- ===== src/AuthService/Server/Handlers.antt =====
-- services/auth-service/src/server.js: the handlers. A body's fields and a cookie are texts or
-- absent. Redis calls succeed; a failed send to Kafka is caught by the source, so an event counts
-- as sent when it is handed over. A handler returns the state, the reply and the cookie.
use aiself_healer.Common.{
  ℕ, ◌+◌, ◌*◌, ◌/◌, String, ◌||◌, Option, none, some, List, [], ◌∷◌, ◌==◌, if◌then◌else◌, ◌<>◌,
  or_else, text_or, find, is_empty,
}
use aiself_healer.JsMap
use aiself_healer.JsMap.{JsMap}
use aiself_healer.AuthService.Rbac.{permissions_for}
use aiself_healer.AuthService.TokenStore as Store
use aiself_healer.AuthService.TokenStore.{Session, TokenStore, found, absent, malformed, Shared}
use aiself_healer.AuthService.Server.State.{
  User, Request, Claims, AuditEvent, Tokens, PublicUser, Reply, error, registered, logged_in,
  refreshed, logged_out, crashed, Cookie, untouched, stored, cleared, Env, Readings, App,
}

-- the `maxAge` of the cookie
abbrev pub cookie_age : ℕ
cookie_age = 604800000

abbrev pub public_user : User → PublicUser
public_user user = record {
  id = user.id;
  email = user.email;
  tenant_id = user.tenant_id;
  roles = user.roles;
  permissions = permissions_for (some user.roles);
}

module _ (env : Env) where
  open env use {
    client, json, hash, compare, sign, access_ttl, refresh_ttl, issuer, audience, has_producer,
  }

  abbrev event_of : Readings → String → User → Request → AuditEvent
  event_of r action user req = record {
    event_id = r.event_uuid;
    event_type = "user.auth";
    service_id = "auth-service";
    tenant_id = user.tenant_id;
    action = action;
    user_id = user.id;
    email = user.email;
    ip = req.ip;
    timestamp = r.event_time;
    correlation_id = text_or req.request_id r.correlation_uuid;
  }

  unfoldable pub emit_auth_event : App env → Readings → String → User → Request → App env
  emit_auth_event app r action user req = record app {
    counted = action ∷ app.counted;
    audit = if has_producer then event_of r action user req ∷ app.audit else app.audit;
  }

  -- the session that `issueTokens` saves, and the payload that it signs
  abbrev pub session_of : Readings → User → Session
  session_of r user = record {
    token_id = r.token_uuid;
    user_id = user.id;
    tenant_id = user.tenant_id;
    expires_at = r.expires_from + refresh_ttl * 1000;
  }

  abbrev pub claims_of : Readings → User → Claims
  claims_of r user = record {
    sub = user.id;
    email = user.email;
    tenant_id = user.tenant_id;
    roles = user.roles;
    permissions = permissions_for (some user.roles);
    issuer = issuer;
    audience = audience;
    issued_at = r.issued_at / 1000;
    expires_at = r.issued_at / 1000 + access_ttl;
  }

  abbrev pub tokens_of : Readings → User → Tokens
  tokens_of r user = record {
    access_token = sign (claims_of r user);
    refresh_token = r.token_uuid;
    expires_in = access_ttl;
  }

  unfoldable pub issue_tokens : App env → Readings → User → App env × Tokens
  issue_tokens app r user =
      let (store, shared) =
        Store.save_refresh_token client json app.store app.shared r.saved_at (session_of r user) in
      (record app { store = store; shared = shared }, tokens_of r user)

  -- The new tokens and the event, which three handlers end with.
  unfoldable pub admit : App env → Readings → String → User → Request → App env × Tokens
  admit app r action user req =
      let (app', tokens) = issue_tokens app r user in
      (emit_auth_event app' r action user req, tokens)

  -- A registration that waits for the hash of its password.
  pub record Pending : Type 0 where
    pub email : String
    pub password : String
    pub tenant_id : String
    pub roles : List String

  pub data Checked : Type 0 where
    refused : Reply → Checked
    proceeds : Pending → Checked

  abbrev pub or_default : Option String → String → String
  or_default none d = d
  or_default (some a) d = a

  abbrev pub roles_or_default : Option (List String) → List String
  roles_or_default none = "tenant_admin" ∷ []
  roles_or_default (some roles) = roles

  -- the handler of `/auth/register` up to `await bcrypt.hash`
  unfoldable pub register_begin : App env → Request → Checked
  register_begin app req = elim req.email [
    | none ↦ refused (error 400 "email_and_password_required")
    | some email ↦ elim req.password [
      | none ↦ refused (error 400 "email_and_password_required")
      | some password ↦
          if is_empty email || is_empty password
          then refused (error 400 "email_and_password_required")
          else if JsMap.has email app.users
          then refused (error 409 "user_exists")
          else proceeds (record {
            email = email;
            password = password;
            tenant_id = or_default req.tenant_id "tenant-demo";
            roles = roles_or_default req.roles;
          })
    ]
  ]

  abbrev pub new_user : Pending → Readings → User
  new_user p r = record {
    id = "user_" <> r.user_uuid;
    email = p.email;
    tenant_id = p.tenant_id;
    roles = p.roles;
    password_hash = hash r.salt p.password;
    created_at = r.created_at;
  }

  -- the rest of it, which does not look at the map again
  unfoldable pub register_finish : App env → Readings → Pending → Request → App env × Reply × Cookie
  register_finish app r p req =
      let user = new_user p r in
      let (app', tokens) =
        admit (record app { users = JsMap.set p.email user app.users }) r "register" user req in
      (app', registered (public_user user) tokens, stored tokens.refresh_token cookie_age)

  -- the handler with no other request in between
  unfoldable pub register : App env → Readings → Request → App env × Reply × Cookie
  register app r req = elim (register_begin app req) [
    | refused reply ↦ (app, reply, untouched)
    | proceeds p ↦ register_finish app r p req
  ]

  -- `users.get(email)`
  abbrev pub user_by_email : App env → Option String → Option User
  user_by_email app none = none
  user_by_email app (some email) = JsMap.get email app.users

  -- the handler of `/auth/login` from the comparison of the password on
  unfoldable pub login_finish : App env → Readings → User → Request → App env × Reply × Cookie
  login_finish app r user req =
      let (app', tokens) = admit app r "login" user req in
      (app', logged_in (public_user user) tokens, stored tokens.refresh_token cookie_age)

  unfoldable pub login : App env → Readings → Request → App env × Reply × Cookie
  login app r req = elim (user_by_email app req.email) [
    | none ↦ (app, error 401 "invalid_credentials", untouched)
    | some user ↦
        if compare (text_or req.password "") user.password_hash
        then login_finish app r user req
        else (app, error 401 "invalid_credentials", untouched)
  ]

  -- `req.cookies.refresh_token || req.body.refreshToken`
  abbrev pub presented : Request → Option String
  presented req = or_else req.cookie req.refresh_token

  abbrev pub user_by_id : App env → String → Option User
  user_by_id app id = find (λ candidate. candidate.id == id) (JsMap.values app.users)

  -- the handler of `/auth/refresh` from the session on
  unfoldable pub renew : App env → Readings → String → Session → Request → App env × Reply × Cookie
  renew app r token session req = elim (user_by_id app session.user_id) [
    | none ↦ (app, error 401 "session_user_missing", untouched)
    | some user ↦
        let (store, shared) = Store.revoke client json app.store app.shared r.revoked_at token in
        let (app', tokens) =
          admit (record app { store = store; shared = shared }) r "refresh" user req in
        (app', refreshed tokens, stored tokens.refresh_token cookie_age)
  ]

  unfoldable pub refresh_with : App env → Readings → String → Request → App env × Reply × Cookie
  refresh_with app r token req =
      let (session, shared) = Store.get client json app.store app.shared r.looked_at token in
      let app' = record app { shared = shared } in
      elim session [
        | absent ↦ (app', error 401 "invalid_refresh_token", untouched)
        | malformed ↦ (app', crashed, untouched)
        | found s ↦ renew app' r token s req
      ]

  -- the handler with no other request in between
  unfoldable pub refresh : App env → Readings → Request → App env × Reply × Cookie
  refresh app r req = elim (presented req) [
    | none ↦ (app, error 401 "invalid_refresh_token", untouched)
    | some token ↦
        if is_empty token
        then (app, error 401 "invalid_refresh_token", untouched)
        else refresh_with app r token req
  ]

  unfoldable pub logout : App env → Readings → Request → App env × Reply × Cookie
  logout app r req = elim (presented req) [
    | none ↦ (app, logged_out, cleared)
    | some token ↦
        if is_empty token
        then (app, logged_out, cleared)
        else (let (store, shared) =
              Store.revoke client json app.store app.shared r.revoked_at token in
            (record app { store = store; shared = shared }, logged_out, cleared))
  ]
