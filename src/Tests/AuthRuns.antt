-- ===== src/Tests/AuthRuns.antt =====
-- The authentication service at one account and its tokens.
use aiself_healer.Common.{
  All, String, none, some, List, [], ◌∷◌, ◌≡◌, if◌then◌else◌, ◌≢◌, refl, arith, eq_iff, ◌<>◌,
}
use aiself_healer.JsMap
use aiself_healer.Gateway.MemoryRedis as Memory
use aiself_healer.AuthService.TokenStore as Store
use aiself_healer.AuthService.TokenStore.{Session, found}
use aiself_healer.AuthService.TokenStore.Views.{view}
use aiself_healer.Gateway.MemoryRedis.View as MemoryView
use aiself_healer.AuthService.Server.State.{
  User, Request, Readings, App, error, registered, logged_in, refreshed,
}
use aiself_healer.AuthService.Server.Handlers.{
  register_begin, register_finish, login, refresh, refresh_with, renew, logout, admit, issue_tokens,
  emit_auth_event, Pending, proceeds, new_user, public_user, tokens_of, user_by_id,
}
use aiself_healer.AuthService.Server.Accounts.{pending_of}
use aiself_healer.AuthService.Server.Refresh.{finds, Refreshes, refresh-Refreshes}
use aiself_healer.AuthService.Server.Replay.{
  Call, registers, logs_in, ends_register, refreshes, serve, refresh-replay, logout-refresh,
}
use aiself_healer.AuthService.Server.Lasting.{Spares, register-serve-login}
use aiself_healer.AuthService.Server.Trail.{actions, labels_of, serve-tells}
use aiself_healer.AuthService.Server.Reuse.{looked, looked_twice, one, both, refresh_race}
use aiself_healer.AuthService.Server.Races.{register_race}
use aiself_healer.Tests.Samples.{env}

abbrev pub readings : String → Readings
readings n = record {
  user_uuid = n;
  salt = "salt";
  created_at = "2026-01-01";
  token_uuid = "token" <> n;
  issued_at = 1000;
  expires_from = 1000;
  saved_at = 1000;
  looked_at = 1000;
  revoked_at = 1000;
  event_uuid = "event";
  event_time = "2026-01-01";
  correlation_uuid = "correlation";
}

abbrev pub bob : User
bob = record {
  id = "user_0";
  email = "bob@example.com";
  tenant_id = "t1";
  roles = "viewer" ∷ [];
  password_hash = "secret";
  created_at = "2026-01-01";
}

abbrev pub credentials : Request
credentials = record {
  email = some "bob@example.com";
  password = some "secret";
  tenant_id = some "t1";
  roles = some ("viewer" ∷ []);
  refresh_token = none;
  cookie = none;
  ip = "10.0.0.1";
  request_id = none;
}

abbrev with_token : String → Request
with_token token = record credentials { cookie = some token }

abbrev pub empty_app : App env
empty_app = record {
  users = [];
  store = Store.init;
  shared = some Memory.init;
  counted = [];
  audit = [];
}

abbrev one_user : App env
one_user = record empty_app {
  users = ("bob@example.com", bob) ∷ [];
  store = record {
    memory =
        (
          "token0",
          record { token_id = "token0"; user_id = "user_0"; tenant_id = "t1"; expires_at = 6000 },
        )
        ∷ [];
    blacklist = [];
  };
}

granted :
    (refresh env one_user (readings "1") (with_token "token0")).1
    ≡ refreshed (tokens_of env (readings "1") bob)
unfolding refresh refresh_with renew admit issue_tokens emit_auth_event Store.get Store.revoke
    Store.save_refresh_token JsMap.get Memory.get Store.session_key JsMap.set_has
granted = refl

abbrev between : List (Call env)
between = logs_in (readings "2") credentials ∷ refreshes (readings "3") (with_token "token1") ∷ []

refresh-replay_example :
    (refresh env
      (serve env (refresh env one_user (readings "1") (with_token "token0")).0 between)
      (readings "4")
      (with_token "token0")).1
    ≡ error 401 "invalid_refresh_token"
refresh-replay_example =
    refresh-replay env one_user (readings "1") (readings "4") (with_token "token0")
      (with_token "token0") "token0" (refl, refl) (refl, refl) between
      (tokens_of env (readings "1") bob) granted

logout-refresh_example :
    (refresh env
      (serve env (logout env one_user (readings "1") (with_token "token0")).0 between)
      (readings "4")
      (with_token "token0")).1
    ≡ error 401 "invalid_refresh_token"
logout-refresh_example =
    logout-refresh env one_user (readings "1") (readings "4") (with_token "token0")
      (with_token "token0") "token0" (refl, refl) (refl, refl) between

refresh-Refreshes_example :
    Refreshes env one_user
      (readings "1")
      (with_token "token0")
      (refresh env one_user (readings "1") (with_token "token0"))
refresh-Refreshes_example = refresh-Refreshes env one_user (readings "1") (with_token "token0")

abbrev waiting : Pending env
waiting = pending_of env empty_app (readings "0") credentials "bob@example.com" "secret"

both_pass : register_begin env empty_app credentials ≡ proceeds waiting
unfolding register_begin JsMap.has JsMap.get
both_pass = refl

register_race_example :
    ((register_finish env empty_app (readings "6") waiting credentials).1
      ≡ registered
          (public_user (new_user env waiting (readings "6")))
          (tokens_of env (readings "6") (new_user env waiting (readings "6"))))
    × ((register_finish env
          (register_finish env empty_app (readings "6") waiting credentials).0
          (readings "7")
          waiting
          credentials).1
        ≡ registered
            (public_user (new_user env waiting (readings "7")))
            (tokens_of env (readings "7") (new_user env waiting (readings "7"))))
    × (JsMap.get "bob@example.com"
          (register_finish env
            (register_finish env empty_app (readings "6") waiting credentials).0
            (readings "7")
            waiting
            credentials).0.users
        ≡ some (new_user env waiting (readings "7")))
    × (user_by_id env
          (register_finish env
            (register_finish env empty_app (readings "6") waiting credentials).0
            (readings "7")
            waiting
            credentials).0
          "user_6"
        ≡ none)
register_race_example =
    register_race env empty_app (readings "6") (readings "7") credentials credentials waiting
      waiting both_pass both_pass refl refl ne
  where
    ne : (new_user env waiting (readings "7")).id ≢ (new_user env waiting (readings "6")).id
    ne e = ground (arith, eq_iff "user_7" "user_6")

abbrev meanwhile : List (Call env)
meanwhile =
    ends_register (readings "8") (record waiting { email = "eve@example.com" }) credentials
    ∷ registers (readings "9") (record credentials { password = some "other" })
    ∷ logs_in (readings "2") credentials
    ∷ []

meanwhile-Spares : All (Spares env waiting.email) meanwhile
unfolding Spares
meanwhile-Spares =
    ((λ e. ground (arith, eq_iff "eve@example.com" "bob@example.com")), (tt, (tt, tt)))

register-serve-login_example :
    (login env
      (serve env (register_finish env one_user (readings "0") waiting credentials).0 meanwhile)
      (readings "5")
      credentials).1
    ≡ logged_in
        (public_user (new_user env waiting (readings "0")))
        (tokens_of env (readings "5") (new_user env waiting (readings "0")))
register-serve-login_example =
    register-serve-login env empty_app one_user (readings "0") (readings "5") credentials
      credentials waiting meanwhile both_pass meanwhile-Spares refl refl

abbrev session : Session
session = record { token_id = "token0"; user_id = "user_0"; tenant_id = "t1"; expires_at = 6000 }

found_twice : finds env one_user 1000 "token0" ≡ found session
unfolding view JsMap.set_has JsMap.get MemoryView.view Store.session_key
found_twice = refl

abbrev presents_0 : Request
presents_0 = with_token "token0"

refresh_race_example :
    ((Store.get env.client env.json one_user.store
        (looked env one_user
          (readings "1")
          (readings "2")
          presents_0
          presents_0
          "token0"
          session
          session
          bob).shared
        1000
        "token0").0
      ≡ found session)
    × ((renew env
          (looked_twice env one_user
            (readings "1")
            (readings "2")
            presents_0
            presents_0
            "token0"
            session
            session
            bob)
          (readings "1")
          "token0"
          session
          presents_0).1
        ≡ refreshed (tokens_of env (readings "1") bob))
    × ((renew env
          (one env one_user
            (readings "1")
            (readings "2")
            presents_0
            presents_0
            "token0"
            session
            session
            bob)
          (readings "2")
          "token0"
          session
          presents_0).1
        ≡ refreshed (tokens_of env (readings "2") bob))
    × ((refresh env
          (both env one_user
            (readings "1")
            (readings "2")
            presents_0
            presents_0
            "token0"
            session
            session
            bob)
          (readings "3")
          presents_0).1
        ≡ error 401 "invalid_refresh_token")
refresh_race_example =
    refresh_race env one_user (readings "1") (readings "2") presents_0 presents_0 "token0" session
      session bob (readings "3") presents_0 (refl, refl) found_twice found_twice (omega arith) refl
      refl

serve-tells_example :
    ((serve env one_user between).counted ≡ labels_of env one_user between [])
    × (actions (serve env one_user between).audit
        ≡ (if env.has_producer then labels_of env one_user between [] else []))
serve-tells_example = serve-tells env between one_user
