-- ===== src/AuthService/Server/Replay.antt =====
-- Sequences of requests to one process, and of the ends of requests that had waited: a token that is
-- spent is not accepted from a request that begins then.
use aiself_healer.Common.{
  String, true, false, some, ◌≡◌, ◌⊎◌, refl, arith, is_empty, eq_refl, inl, inr, Option-cases, List,
  [], ◌∷◌,
}
use aiself_healer.JsMap.{set_has}
use aiself_healer.JsMap.Laws.{set_has-set_add}
use aiself_healer.AuthService.TokenStore as Store
use aiself_healer.AuthService.TokenStore.{Session, Lookup, found, absent, malformed}
use aiself_healer.AuthService.TokenStore.Views.{get-spent}
use aiself_healer.AuthService.Server.State.{
  User, Request, Reply, error, refreshed, Env, Readings, App, Tokens,
}
use aiself_healer.AuthService.Server.Handlers.{
  login_finish, register, register_begin, register_finish, login, refresh, refresh_with, renew,
  logout, admit, issue_tokens, emit_auth_event, presented, Checked, refused, proceeds, Pending,
}

pub Checked-cases :
    {env : Env} (c : Checked env)
    → ((reply : Reply) × (c ≡ refused reply)) ⊎ ((p : Pending env) × (c ≡ proceeds p))
Checked-cases (refused reply) = inl (reply, refl)
Checked-cases (proceeds p) = inr (p, refl)

module _ (env : Env) where
  -- A request that runs without another in between, or the end of one that began at any time
  -- before: of a registration that waited for its hash, of a login that waited for the comparison,
  -- or of a refresh that waited for the session it found.
  pub data Call : Type 0 where
    registers logs_in refreshes logs_out : Readings → Request → Call
    ends_register : Readings → Pending env → Request → Call
    ends_login : Readings → User → Request → Call
    ends_refresh : Readings → String → Session → Request → Call

  unfoldable pub handle : App env → Call → App env
  handle app (registers r req) = (register env app r req).0
  handle app (logs_in r req) = (login env app r req).0
  handle app (refreshes r req) = (refresh env app r req).0
  handle app (logs_out r req) = (logout env app r req).0
  handle app (ends_register r p req) = (register_finish env app r p req).0
  handle app (ends_login r user req) = (login_finish env app r user req).0
  handle app (ends_refresh r old s req) = (renew env app r old s req).0

  unfoldable pub serve : App env → List Call → App env
  serve app [] = app
  serve app (c ∷ cs) = serve (handle app c) cs

  abbrev pub IsSpent : App env → String → Type 0
  IsSpent app token = set_has token app.store.blacklist ≡ true

  -- The request presents the token, which is not empty.
  abbrev pub Presents : Request → String → Type 0
  Presents req token = (presented env req ≡ some token) × (is_empty token ≡ false)

  module _ (r : Readings) (req : Request) (token : String) where
    register_finish-IsSpent :
        (app : App env) (p : Pending env)
        → IsSpent app token
        → IsSpent (register_finish env app r p req).0 token
    unfolding register_finish admit issue_tokens emit_auth_event Store.save_refresh_token
    register_finish-IsSpent app p h = h

    register-IsSpent :
        (app : App env) → IsSpent app token → IsSpent (register env app r req).0 token
    unfolding register
    register-IsSpent app h = elim (Checked-cases (register_begin env app req)) [
      | inl (reply, e) ↦ rw (e, register) h
      | inr (p, e) ↦ rw (e, register) (register_finish-IsSpent app p h)
    ]

    login_finish-IsSpent :
        (app : App env) (user : User)
        → IsSpent app token
        → IsSpent (login_finish env app r user req).0 token
    unfolding login_finish admit issue_tokens emit_auth_event Store.save_refresh_token
    login_finish-IsSpent app user h = h

    login-IsSpent : (app : App env) → IsSpent app token → IsSpent (login env app r req).0 token
    unfolding login login_finish admit issue_tokens emit_auth_event Store.save_refresh_token
    login-IsSpent app h = ground arith

    renew-IsSpent :
        (app : App env) (old : String) (s : Session)
        → IsSpent app token
        → IsSpent (renew env app r old s req).0 token
    unfolding renew Store.revoke admit issue_tokens emit_auth_event Store.save_refresh_token
    renew-IsSpent app old s h = ground (arith, set_has-set_add old token app.store.blacklist)

    refresh_with-IsSpent :
        (app : App env) (old : String) (l : Lookup)
        → (Store.get env.client env.json app.store app.shared r.looked_at old).0 ≡ l
        → IsSpent app token
        → IsSpent (refresh_with env app r old req).0 token
    unfolding refresh_with
    refresh_with-IsSpent app old absent e h = rw (e, refresh_with) h
    refresh_with-IsSpent app old malformed e h = rw (e, refresh_with) h
    refresh_with-IsSpent app old (found s) e h = rw (e, refresh_with) (renew-IsSpent _ old s h)

    refresh-IsSpent : (app : App env) → IsSpent app token → IsSpent (refresh env app r req).0 token
    unfolding refresh
    refresh-IsSpent app h = elim (Option-cases (presented env req)) [
      | inl missing ↦ ground arith
      | inr (old, p) ↦ ground (arith, refresh_with-IsSpent app old _ refl h)
    ]

    logout-IsSpent : (app : App env) → IsSpent app token → IsSpent (logout env app r req).0 token
    unfolding logout Store.revoke
    logout-IsSpent app h = elim (Option-cases (presented env req)) [
      | inl missing ↦ ground arith
      | inr (old, p) ↦ ground (arith, set_has-set_add old token app.store.blacklist)
    ]

    logout-spends : (app : App env) → Presents req token → IsSpent (logout env app r req).0 token
    unfolding logout Store.revoke
    logout-spends app g =
        ground (arith, g.0, g.1, set_has-set_add token token app.store.blacklist, eq_refl token)

    pub renew-spends :
        (app : App env) (s : Session) (tokens : Tokens)
        → (renew env app r token s req).1 ≡ refreshed tokens
        → IsSpent (renew env app r token s req).0 token
    unfolding renew Store.revoke admit issue_tokens emit_auth_event Store.save_refresh_token
    renew-spends app s tokens h =
        ground (arith, set_has-set_add token token app.store.blacklist, eq_refl token)

    refresh_with-spends :
        (app : App env) (l : Lookup) (tokens : Tokens)
        → (Store.get env.client env.json app.store app.shared r.looked_at token).0 ≡ l
        → (refresh_with env app r token req).1 ≡ refreshed tokens
        → IsSpent (refresh_with env app r token req).0 token
    unfolding refresh_with
    refresh_with-spends app absent tokens e h = absurd (ground arith)
    refresh_with-spends app malformed tokens e h = absurd (ground arith)
    refresh_with-spends app (found s) tokens e h =
        rw (e, refresh_with) (renew-spends _ s tokens (rw (e, refresh_with) at h))

    refresh-spends :
        (app : App env) (tokens : Tokens)
        → Presents req token
        → (refresh env app r req).1 ≡ refreshed tokens
        → IsSpent (refresh env app r req).0 token
    unfolding refresh
    refresh-spends app tokens g h = ground (arith, g.0, g.1, refresh_with-spends app _ tokens refl)

    pub spent-refused :
        (app : App env)
        → Presents req token
        → IsSpent app token
        → (refresh env app r req).1 ≡ error 401 "invalid_refresh_token"
    unfolding refresh refresh_with
    spent-refused app g h =
        rw (g.0, refresh)
          (rw g.1 (
            rw
              (get-spent env.client env.json app.store app.shared r.looked_at token h, refresh_with)
              refl))

  handle-IsSpent :
      (app : App env) (c : Call) (token : String) → IsSpent app token → IsSpent (handle app c) token
  unfolding handle
  handle-IsSpent app (registers r req) token h = register-IsSpent r req token app h
  handle-IsSpent app (logs_in r req) token h = login-IsSpent r req token app h
  handle-IsSpent app (refreshes r req) token h = refresh-IsSpent r req token app h
  handle-IsSpent app (logs_out r req) token h = logout-IsSpent r req token app h
  handle-IsSpent app (ends_register r p req) token h = register_finish-IsSpent r req token app p h
  handle-IsSpent app (ends_login r user req) token h = login_finish-IsSpent r req token app user h
  handle-IsSpent app (ends_refresh r old s req) token h = renew-IsSpent r req token app old s h

  serve-IsSpent :
      (cs : List Call) (app : App env) (token : String)
      → IsSpent app token
      → IsSpent (serve app cs) token
  unfolding serve
  serve-IsSpent [] app token h = h
  serve-IsSpent (c ∷ cs) app token h =
      serve-IsSpent cs (handle app c) token (handle-IsSpent app c token h)

  module _ (app : App env) (r r' : Readings) (req again : Request) (token : String)
      (first : Presents req token) (second : Presents again token) (cs : List Call) where
    -- After a refresh that a token granted, with no other request in between, and after any
    -- further requests to the process, among them the ends of requests that had begun before, a
    -- refresh that begins with the token is answered with 401.
    pub refresh-replay :
        (tokens : Tokens)
        → (refresh env app r req).1 ≡ refreshed tokens
        → (refresh env (serve (refresh env app r req).0 cs) r' again).1
          ≡ error 401 "invalid_refresh_token"
    refresh-replay tokens granted =
        spent-refused r' again token (serve (refresh env app r req).0 cs) second (
          serve-IsSpent cs (refresh env app r req).0 token
            (refresh-spends r req token app tokens first granted))

    -- After a logout with a refresh token, and any further requests to the process, among them the
    -- ends of requests that had begun before, a refresh that begins with that token is answered
    -- with 401.
    pub logout-refresh :
        (refresh env (serve (logout env app r req).0 cs) r' again).1
        ≡ error 401 "invalid_refresh_token"
    logout-refresh =
        spent-refused r' again token (serve (logout env app r req).0 cs) second
          (serve-IsSpent cs (logout env app r req).0 token (logout-spends r req token app first))
