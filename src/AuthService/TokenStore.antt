-- ===== src/AuthService/TokenStore.antt =====
-- services/auth-service/src/tokenStore.js over a Redis client (ioredis) that may be absent. The
-- client's state is beside the store, since several processes share it. `now` is the reading of
-- `Date.now()`.
pub mod Views
pub mod Instances
use aiself_healer.Common.{
  ℕ, ◌-◌, ◌/◌, max, String, Bool, true, false, Option, none, some, List, [], ◌<>◌, if◌then◌else◌,
  is_empty, ◌≡◌,
}
use aiself_healer.JsMap
use aiself_healer.JsMap.{JsMap, set_has, set_add}
use aiself_healer.Redis.{RedisClient}

pub record Session : Type 0 where
  pub token_id : String
  pub user_id : String
  pub tenant_id : String
  pub expires_at : ℕ

-- `JSON.stringify` and `JSON.parse` at sessions: what is written reads back.
pub record Codec : Type 0 where
  pub encode : Session → String
  pub decode : String → Option Session
  pub decode-encode : (s : Session) → decode (encode s) ≡ some s
  pub encode-filled : (s : Session) → is_empty (encode s) ≡ false

pub record TokenStore : Type 0 where
  pub memory : JsMap Session
  pub blacklist : List String

abbrev pub init : TokenStore
init = record { memory = []; blacklist = [] }

-- What `get` gives: a session, `null`, or the exception of `JSON.parse`.
pub data Lookup : Type 0 where
  found : Session → Lookup
  absent : Lookup
  malformed : Lookup

unfoldable pub session_key : String → String
session_key token_id = "session:" <> token_id

pub blacklist_key : String → String
blacklist_key token_id = "blacklist:" <> token_id

abbrev pub memory_lookup : TokenStore → String → Lookup
memory_lookup store token_id = elim (JsMap.get token_id store.memory) [
  | none ↦ absent
  | some session ↦ found session
]

module _ (client : RedisClient) (json : Codec) where
  -- `this.redis` and what it holds
  abbrev pub Shared : Type 0
  Shared = Option client.State

  -- `Math.max(1, Math.floor((expiresAt - Date.now()) / 1000))`
  abbrev pub ttl_of : ℕ → ℕ → ℕ
  ttl_of expires_at now = max 1 ((expires_at - now) / 1000)

  abbrev pub store_remote : Shared → ℕ → Session → Shared
  store_remote none now session = none
  store_remote (some redis) now session = some (
      client.set_ex redis now (session_key session.token_id) (json.encode session)
        (ttl_of session.expires_at now))

  unfoldable pub save_refresh_token : TokenStore → Shared → ℕ → Session → TokenStore × Shared
  save_refresh_token store shared now session = (
    record store { memory = JsMap.set session.token_id session store.memory },
    store_remote shared now session,
  )

  -- the answer to a text that Redis holds; "" and `null` are falsy
  abbrev pub read_raw : TokenStore → String → Option String → Lookup
  read_raw store token_id none = memory_lookup store token_id
  read_raw store token_id (some raw) =
      if is_empty raw
      then memory_lookup store token_id
      else (elim (json.decode raw) [ none ↦ malformed | some session ↦ found session ])

  unfoldable pub get : TokenStore → Shared → ℕ → String → Lookup × Shared
  get store none now token_id =
      (if set_has token_id store.blacklist then absent else memory_lookup store token_id, none)
  get store (some redis) now token_id =
      if set_has token_id store.blacklist
      then (absent, some redis)
      else (let (raw, redis') = client.get redis now (session_key token_id) in
          (read_raw store token_id raw, some redis'))

  abbrev pub revoke_remote : Shared → ℕ → String → Shared
  revoke_remote none now token_id = none
  revoke_remote (some redis) now token_id = some (
      client.set_ex (client.del redis (session_key token_id)) now (blacklist_key token_id) "1"
        604800)

  unfoldable pub revoke : TokenStore → Shared → ℕ → String → TokenStore × Shared
  revoke store shared now token_id = (
    record store {
      blacklist = set_add token_id store.blacklist;
      memory = JsMap.delete token_id store.memory;
    },
    revoke_remote shared now token_id,
  )

  -- `later` is the reading of the clock in the `save`.
  unfoldable pub rotate : TokenStore → Shared → ℕ → ℕ → String → Session → TokenStore × Shared
  rotate store shared now later old_token_id next_session =
      let (store', shared') = revoke store shared now old_token_id in
      save_refresh_token store' shared' later next_session
