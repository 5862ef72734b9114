-- ===== src/AuthService/Server/State.antt =====
-- services/auth-service/src/server.js: the data of the handlers, what they answer, and the state
-- of the service.
use aiself_healer.Common.{ℕ, String, Bool, true, Option, List, ◌≡◌}
use aiself_healer.JsMap.{JsMap}
use aiself_healer.Redis.{RedisClient}
use aiself_healer.AuthService.Rbac.{Permission}
use aiself_healer.AuthService.TokenStore.{Codec, TokenStore, Shared}

pub record User : Type 0 where
  pub id : String
  pub email : String
  pub tenant_id : String
  pub roles : List String
  pub password_hash : String
  pub created_at : String

-- The fields that the handlers read of a request.
pub record Request : Type 0 where
  pub email : Option String
  pub password : Option String
  pub tenant_id : Option String
  pub roles : Option (List String)
  -- `req.body.refreshToken` and `req.cookies.refresh_token`
  pub refresh_token : Option String
  pub cookie : Option String
  pub ip : String
  -- the header "x-request-id"
  pub request_id : Option String

-- The payload and the dates that are signed.
pub record Claims : Type 0 where
  pub sub : String
  pub email : String
  pub tenant_id : String
  pub roles : List String
  pub permissions : List Permission
  pub issuer : String
  pub audience : String
  pub issued_at : ℕ
  pub expires_at : ℕ

pub record AuditEvent : Type 0 where
  pub event_id : String
  pub event_type : String
  pub service_id : String
  pub tenant_id : String
  pub action : String
  pub user_id : String
  pub email : String
  pub ip : String
  pub timestamp : String
  pub correlation_id : String

pub record Tokens : Type 0 where
  pub access_token : String
  pub refresh_token : String
  pub expires_in : ℕ

pub record PublicUser : Type 0 where
  pub id : String
  pub email : String
  pub tenant_id : String
  pub roles : List String
  pub permissions : List Permission

-- A status with the `error` of the body, or a body of a success: 201, 200, 200 and 200. `crashed`
-- is an exception that the handler does not catch.
pub data Reply : Type 0 where
  error : ℕ → String → Reply
  registered : PublicUser → Tokens → Reply
  logged_in : PublicUser → Tokens → Reply
  refreshed : Tokens → Reply
  logged_out : Reply
  crashed : Reply

-- What a reply does to the cookie "refresh_token"; a value that is set lives for a number of ms.
pub data Cookie : Type 0 where
  untouched : Cookie
  stored : String → ℕ → Cookie
  cleared : Cookie

-- The packages, the environment and the settings that the service runs with.
pub record Env : Type 1 where
  pub client : RedisClient
  pub json : Codec
  -- `bcrypt.hash` with its salt, and `bcrypt.compare`
  pub hash : String → String → String
  pub compare : String → String → Bool
  pub compare-hash : (salt password : String) → compare password (hash salt password) ≡ true
  -- the signed token for a payload
  pub sign : Claims → String
  pub access_ttl : ℕ
  pub refresh_ttl : ℕ
  pub issuer : String
  pub audience : String
  pub has_producer : Bool

-- The clock readings and the random values of one request.
pub record Readings : Type 0 where
  pub user_uuid : String
  pub salt : String
  pub created_at : String
  pub token_uuid : String
  pub issued_at : ℕ
  pub expires_from : ℕ
  pub saved_at : ℕ
  pub looked_at : ℕ
  pub revoked_at : ℕ
  pub event_uuid : String
  pub event_time : String
  pub correlation_uuid : String

module _ (env : Env) where
  open env use {
    client, json, hash, compare, sign, access_ttl, refresh_ttl, issuer, audience, has_producer,
  }

  pub record App : Type 0 where
    pub users : JsMap User
    pub store : TokenStore
    pub shared : Shared client json
    -- the labels counted, and the events sent, latest first
    pub counted : List String
    pub audit : List AuditEvent
