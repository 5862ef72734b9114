-- ===== src/AuthService/TokenStore/Views.antt =====
-- What a lookup of each token finds at each time, and what the operations do to it.
use text.Mathlib.TextLemmas.{cons-append, append_cancel_left}
use aiself_healer.Common.{
  ℕ, true, ◌≤◌, String, Option, none, some, ◌==◌, if◌then◌else◌, ◌&&◌, not, ◌≡◌, refl, ap, arith,
  eq_iff, after_prefix, after_prefix-append, Bool-cases, inl, inr, ◌≢◌,
}
use aiself_healer.JsMap.Laws.{get-set, get-delete, set_has-set_add}
use aiself_healer.JsMap.{set_has}
use aiself_healer.Redis.{RedisClient}
use aiself_healer.AuthService.TokenStore.{
  Session, Codec, TokenStore, Lookup, found, absent, session_key, blacklist_key, Shared, read_raw,
  save_refresh_token, get, revoke, ttl_of,
}

pub session_key-eq : (s t : String) → (session_key s == session_key t) ≡ (s == t)
unfolding session_key
session_key-eq s t = elim (Bool-cases (s == t)) [
  | inl same ↦ rw same ((eq_iff _ _).1 (ap session_key ((eq_iff s t).0 same)))
  | inr other ↦ ground (
    arith,
    eq_iff s t,
    eq_iff (session_key s) (session_key t),
    λ (e : session_key s ≡ session_key t). append_cancel_left "session:" s t e,
  )
]

pub session-ne-blacklist : (s t : String) → blacklist_key s ≢ session_key t
unfolding session_key blacklist_key after_prefix
session-ne-blacklist s t e =
    let opened : after_prefix "session:" (session_key t) ≡ some t =
      after_prefix-append "session:" t in
    let closed : after_prefix "session:" (blacklist_key s) ≡ none =
      rw (cons-append "b" "lacklist:" s) refl in
    ground (arith, opened, closed, e)

module _ (client : RedisClient) (json : Codec) where
  -- what Redis holds for a key at a time
  abbrev pub remote : Shared client json → ℕ → String → Option String
  remote none t key = none
  remote (some redis) t key = client.view redis t key

  -- what a lookup of the token at the time finds
  unfoldable pub view : TokenStore → Shared client json → ℕ → String → Lookup
  view store shared t token_id =
      if set_has token_id store.blacklist
      then absent
      else read_raw client json store token_id (remote shared t (session_key token_id))

  -- A lookup gives what the store and Redis hold for the token at that time, and hides nothing
  -- from a later one.
  pub get-view :
      (store : TokenStore) (shared : Shared client json) (now : ℕ) (token_id : String)
      → ((get client json store shared now token_id).0 ≡ view store shared now token_id)
        × ((t : ℕ) (other : String)
            → now ≤ t
            → view store (get client json store shared now token_id).1 t other
              ≡ view store shared t other)
  unfolding get view
  get-view store none now token_id = (ground arith, λ t other h. refl)
  get-view store (some redis) now token_id = (
    ground (arith, client.get-view redis now (session_key token_id)),
    λ t other h.
        ground (arith, client.view-get redis now t (session_key token_id) (session_key other)),
  )

  -- After a `save` a lookup of the token finds the session at every time, unless the token was
  -- revoked: its `expires_at` does not end it. Every other token is found as before.
  pub view-save_refresh_token :
      (store : TokenStore) (shared : Shared client json) (now t : ℕ) (s : Session) (other : String)
      → view
          (save_refresh_token client json store shared now s).0
          (save_refresh_token client json store shared now s).1
          t
          other
        ≡ (if s.token_id == other && not (set_has other store.blacklist)
            then found s
            else view store shared t other)
  unfolding save_refresh_token view
  view-save_refresh_token store none now t s other =
      ground (arith, get-set s.token_id other s store.memory)
  view-save_refresh_token store (some redis) now t s other = ground (
    arith,
    get-set s.token_id other s store.memory,
    client.view-set_ex redis now t (session_key s.token_id) (session_key other) (json.encode s)
        (ttl_of client json s.expires_at now),
    session_key-eq s.token_id other,
    json.decode-encode s,
    json.encode-filled s,
  )

  -- After a `revoke` a lookup of the token finds nothing at any time, and every other token is
  -- found as before.
  pub view-revoke :
      (store : TokenStore) (shared : Shared client json) (now t : ℕ) (token_id other : String)
      → view
          (revoke client json store shared now token_id).0
          (revoke client json store shared now token_id).1
          t
          other
        ≡ (if token_id == other then absent else view store shared t other)
  unfolding revoke view
  view-revoke store none now t token_id other = ground (
    arith,
    get-delete token_id other store.memory,
    set_has-set_add token_id other store.blacklist,
  )
  view-revoke store (some redis) now t token_id other = ground (
    arith,
    get-delete token_id other store.memory,
    set_has-set_add token_id other store.blacklist,
    client.view-set_ex (client.del redis (session_key token_id)) now t (blacklist_key token_id)
        (session_key other) "1" 604800,
    client.view-del redis t (session_key token_id) (session_key other),
    session_key-eq token_id other,
    eq_iff (blacklist_key token_id) (session_key other),
    session-ne-blacklist token_id other,
  )

  -- A token on the blacklist is not found.
  pub get-spent :
      (store : TokenStore) (shared : Shared client json) (now : ℕ) (token_id : String)
      → set_has token_id store.blacklist ≡ true
      → (get client json store shared now token_id).0 ≡ absent
  unfolding get
  get-spent store none now token_id h = ground arith
  get-spent store (some redis) now token_id h = ground arith
