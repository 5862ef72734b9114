-- ===== src/AuthService/TokenStore/Instances.antt =====
-- One store over a sequence of calls, and two processes that share one Redis.
use aiself_healer.Common.{
  ℕ, String, true, false, ◌||◌, ◌&&◌, not, none, some, List, [], ◌∷◌, ◌==◌, if◌then◌else◌, ◌≡◌,
  arith, eq_refl, eq_iff,
}
use aiself_healer.JsMap
use aiself_healer.JsMap.Laws.{set_has-set_add}
use aiself_healer.JsMap.{set_has}
use aiself_healer.Redis.{RedisClient}
use aiself_healer.AuthService.TokenStore.{
  Session, Codec, TokenStore, found, absent, session_key, blacklist_key, Shared, save_refresh_token,
  get, revoke, rotate,
}
use aiself_healer.AuthService.TokenStore.Views.{
  view, session-ne-blacklist, view-save_refresh_token, view-revoke,
}

pub data StoreCall : Type 0 where
  saves : ℕ → Session → StoreCall
  looks_up : ℕ → String → StoreCall
  revokes : ℕ → String → StoreCall
  rotates : ℕ → ℕ → String → Session → StoreCall

module _ (client : RedisClient) (json : Codec) where
  revoke-blacklist :
      (store : TokenStore) (shared : Shared client json) (now : ℕ) (id other : String)
      → set_has other (revoke client json store shared now id).0.blacklist
        ≡ (id == other || set_has other store.blacklist)
  unfolding revoke
  revoke-blacklist store shared now id other = set_has-set_add id other store.blacklist

  -- After a `rotate` the new token is found, unless it was revoked before or is the old one; the
  -- old one is not found; every other token is found as before.
  pub view-rotate :
      (store : TokenStore) (shared : Shared client json) (now later t : ℕ) (old : String)
      (next : Session) (other : String)
      → view client json
          (rotate client json store shared now later old next).0
          (rotate client json store shared now later old next).1
          t
          other
        ≡ (if old == other
            then absent
            else (if next.token_id == other && not (set_has other store.blacklist)
                then found next
                else view client json store shared t other))
  unfolding rotate
  view-rotate store shared now later t old next other =
      let revoked = revoke client json store shared now old in
      ground (
        arith,
        view-save_refresh_token client json revoked.0 revoked.1 later t next other,
        view-revoke client json store shared now t old other,
        revoke-blacklist store shared now old other,
      )

  pub call : TokenStore × Shared client json → StoreCall → TokenStore × Shared client json
  call (store, shared) (saves now s) = save_refresh_token client json store shared now s
  call (store, shared) (looks_up now id) = (store, (get client json store shared now id).1)
  call (store, shared) (revokes now id) = revoke client json store shared now id
  call (store, shared) (rotates now later old next) =
      rotate client json store shared now later old next

  pub run : TokenStore × Shared client json → List StoreCall → TokenStore × Shared client json
  run w [] = w
  run w (c ∷ cs) = run (call w c) cs

  call-blacklist :
      (w : TokenStore × Shared client json) (c : StoreCall) (id : String)
      → set_has id w.0.blacklist ≡ true
      → set_has id (call w c).0.blacklist ≡ true
  unfolding call save_refresh_token revoke rotate
  call-blacklist (store, shared) (saves now s) id h = h
  call-blacklist (store, shared) (looks_up now other) id h = h
  call-blacklist (store, shared) (revokes now other) id h =
      ground (arith, set_has-set_add other id store.blacklist)
  call-blacklist (store, shared) (rotates now later old next) id h =
      ground (arith, set_has-set_add old id store.blacklist)

  run-blacklist :
      (cs : List StoreCall) (w : TokenStore × Shared client json) (id : String)
      → set_has id w.0.blacklist ≡ true
      → set_has id (run w cs).0.blacklist ≡ true
  unfolding run
  run-blacklist [] w id h = h
  run-blacklist (c ∷ cs) w id h = run-blacklist cs (call w c) id (call-blacklist w c id h)

  -- A token that a process has revoked is found by no lookup of that process again, at any time
  -- and after any further calls, a `save` under the same id included.
  pub revoke-run :
      (store : TokenStore) (shared : Shared client json) (now t : ℕ) (id : String)
      (cs : List StoreCall)
      → view client json
          (run (revoke client json store shared now id) cs).0
          (run (revoke client json store shared now id) cs).1
          t
          id
        ≡ absent
  unfolding view
  revoke-run store shared now t id cs = ground (
    arith,
    run-blacklist cs (revoke client json store shared now id) id,
    revoke-blacklist store shared now id id,
    eq_refl id,
  )

  -- Another process that holds the session in its memory, and has not revoked it itself, still
  -- finds it after the revocation, at every time: what the revoking process writes to Redis is not
  -- read.
  pub revoke_elsewhere :
      (a b : TokenStore) (shared : Shared client json) (now t : ℕ) (id : String) (s : Session)
      → JsMap.get id b.memory ≡ some s
      → set_has id b.blacklist ≡ false
      → view client json b (revoke client json a shared now id).1 t id ≡ found s
  unfolding view revoke
  revoke_elsewhere a b none now t id s held listed = ground arith
  revoke_elsewhere a b (some redis) now t id s held listed = ground (
    arith,
    client.view-set_ex (client.del redis (session_key id)) now t (blacklist_key id) (session_key id)
        "1" 604800,
    client.view-del redis t (session_key id) (session_key id),
    eq_refl (session_key id),
    eq_iff (blacklist_key id) (session_key id),
    session-ne-blacklist id id,
  )
