-- ===== src/AuthService/Server/Refresh.antt =====
-- What a refresh answers, and what it does to the tokens that can be looked up.
use aiself_healer.Common.{
  ℕ, ◌≤◌, String, false, ◌&&◌, not, none, some, ◌==◌, if◌then◌else◌, ◌≡◌, ◌∙◌, refl, arith,
  is_empty, truthy, eq_iff, inl, inr, Option-cases, Bool-cases, find-holds,
}
use aiself_healer.JsMap
use aiself_healer.JsMap.{set_has}
use aiself_healer.AuthService.TokenStore as Store
use aiself_healer.AuthService.TokenStore.{
  Session, Lookup, found, absent, malformed, TokenStore, Shared,
}
use aiself_healer.AuthService.TokenStore.Views.{view, get-view}
use aiself_healer.AuthService.TokenStore.Instances.{view-rotate}
use aiself_healer.AuthService.Server.State.{
  User, Request, Reply, error, refreshed, crashed, Cookie, untouched, stored, Env, Readings, App,
}
use aiself_healer.AuthService.Server.Handlers.{
  refresh, refresh_with, renew, admit, issue_tokens, emit_auth_event, session_of, tokens_of,
  cookie_age, presented, user_by_id,
}

-- What a lookup of a token finds at a time.
abbrev pub finds : (env : Env) → App env → ℕ → String → Lookup
finds env app t token = view env.client env.json app.store app.shared t token

-- The accounts are the same, and every token is found as before, from a time on.
pub record SameFrom (env : Env) (now : ℕ) (app app' : App env) : Type 0 where
  pub same_users : app'.users ≡ app.users
  pub same_tokens : (t : ℕ) (id : String) → now ≤ t → finds env app' t id ≡ finds env app t id

module _ (env : Env) (app : App env) (r : Readings) (req : Request) where
  -- The answers to a refresh, with what each one leaves.
  pub data Refreshes (result : App env × Reply × Cookie) : Type 0 where
    no_token :
        truthy (presented env req) ≡ false
        → result ≡ (app, error 401 "invalid_refresh_token", untouched)
        → Refreshes result
    unknown :
        (token : String)
        → presented env req ≡ some token
        → finds env app r.looked_at token ≡ absent
        → SameFrom env r.looked_at app result.0
        → result.1 ≡ error 401 "invalid_refresh_token"
        → Refreshes result
    broken :
        (token : String)
        → presented env req ≡ some token
        → finds env app r.looked_at token ≡ malformed
        → SameFrom env r.looked_at app result.0
        → result.1 ≡ crashed
        → Refreshes result
    ownerless :
        (token : String) (s : Session)
        → presented env req ≡ some token
        → finds env app r.looked_at token ≡ found s
        → user_by_id env app s.user_id ≡ none
        → SameFrom env r.looked_at app result.0
        → result.1 ≡ error 401 "session_user_missing"
        → Refreshes result
    rotated :
        (token : String) (s : Session) (user : User)
        → presented env req ≡ some token
        → finds env app r.looked_at token ≡ found s
        → user_by_id env app s.user_id ≡ some user
        → user.id ≡ s.user_id
        → result.0.users ≡ app.users
        → ((t : ℕ) (id : String)
            → r.looked_at ≤ t
            → finds env result.0 t id ≡ (
                if token == id
                then absent
                else (if r.token_uuid == id && not (set_has id app.store.blacklist)
                    then found (session_of env r user)
                    else finds env app t id)))
        → result.1 ≡ refreshed (tokens_of env r user)
        → result.2 ≡ stored r.token_uuid cookie_age
        → Refreshes result

  -- the state after the lookup
  abbrev looked : String → App env
  looked token = record app {
    shared = (Store.get env.client env.json app.store app.shared r.looked_at token).1;
  }

  looked-SameFrom : (token : String) → SameFrom env r.looked_at app (looked token)
  looked-SameFrom token = record {
    same_users = refl;
    same_tokens = (get-view env.client env.json app.store app.shared r.looked_at token).1;
  }

  renew-finds :
      (app' : App env) (token : String) (s : Session) (user : User)
      → user_by_id env app' s.user_id ≡ some user
      → (t : ℕ) (id : String)
      → finds env (renew env app' r token s req).0 t id ≡ (
          if token == id
          then absent
          else (if r.token_uuid == id && not (set_has id app'.store.blacklist)
              then found (session_of env r user)
              else finds env app' t id))
  unfolding renew admit issue_tokens emit_auth_event Store.rotate
  renew-finds app' token s user known t id =
      rw (known, renew)
        (view-rotate env.client env.json app'.store app'.shared r.revoked_at r.saved_at t token
          (session_of env r user) id)

  pub renew-answer :
      (app' : App env) (token : String) (s : Session) (user : User)
      → user_by_id env app' s.user_id ≡ some user
      → ((renew env app' r token s req).0.users ≡ app'.users)
        × ((renew env app' r token s req).1 ≡ refreshed (tokens_of env r user))
        × ((renew env app' r token s req).2 ≡ stored r.token_uuid cookie_age)
  unfolding renew admit issue_tokens emit_auth_event
  renew-answer app' token s user known = rw (known, renew) (refl, refl, refl)

  renew-missing :
      (app' : App env) (token : String) (s : Session)
      → user_by_id env app' s.user_id ≡ none
      → renew env app' r token s req ≡ (app', error 401 "session_user_missing", untouched)
  unfolding renew
  renew-missing app' token s missing = rw (missing, renew) refl

  -- The lookup's answer, where what it finds is known.
  looked_up :
      (token : String) (l : Lookup)
      → finds env app r.looked_at token ≡ l
      → (Store.get env.client env.json app.store app.shared r.looked_at token).0 ≡ l
  looked_up token l e = (get-view env.client env.json app.store app.shared r.looked_at token).0 ∙ e

  refresh_with-Refreshes :
      (token : String)
      → presented env req ≡ some token
      → (l : Lookup) → finds env app r.looked_at token ≡ l
      → Refreshes (refresh_with env app r token req)
  unfolding refresh_with
  refresh_with-Refreshes token p absent e =
      rw (looked_up token absent e, refresh_with) (unknown token p e (looked-SameFrom token) refl)
  refresh_with-Refreshes token p malformed e =
      rw (looked_up token malformed e, refresh_with) (broken token p e (looked-SameFrom token) refl)
  refresh_with-Refreshes token p (found s) e =
      rw (looked_up token (found s) e, refresh_with)
        (elim (Option-cases (user_by_id env app s.user_id)) [
          | inl missing ↦
              rw (renew-missing (looked token) token s missing)
                (ownerless token s p e missing (looked-SameFrom token) refl)
          | inr (user, known) ↦
              let app' = looked token in
              let (users, reply, cookie) = renew-answer app' token s user known in
              rotated token s user p e known
                ((eq_iff user.id s.user_id).0 (find-holds _ (JsMap.values app.users) user known))
                users
                (λ t id h.
                  renew-finds app' token s user known t id
                  ∙ (rw ((looked-SameFrom token).same_tokens t id h)))
                reply cookie
        ])

  -- With no other request in between, and with a Redis that answers: a refresh without a token, or
  -- with one that is not found, answers 401, and so does one whose account is missing; one whose
  -- session in Redis does not parse ends in an exception. In all of these the accounts stay, and
  -- every token is found as before. Any other refresh ends the token that was presented for good,
  -- makes the new token found with a session of the account that the old session names, unless that
  -- token was revoked before, finds every other token as before, and answers with the new tokens.
  pub refresh-Refreshes : Refreshes (refresh env app r req)
  unfolding refresh
  refresh-Refreshes = elim (Option-cases (presented env req)) [
    | inl none_given ↦ no_token (ground arith) (ground arith)
    | inr (token, p) ↦ elim (Bool-cases (is_empty token)) [
      | inl empty ↦ no_token (ground arith) (ground arith)
      | inr filled ↦
          rw (p, refresh)
            (rw filled (refresh_with-Refreshes token p (finds env app r.looked_at token) refl))
    ]
  ]
