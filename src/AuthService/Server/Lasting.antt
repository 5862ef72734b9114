-- ===== src/AuthService/Server/Lasting.antt =====
-- Sequences of requests to one process, and of the ends of requests that had waited: the accounts
-- that outlive them.
use aiself_healer.Common.{
  if◌then◌else◌, eq_refl, eq_iff, ◌==◌, All, ◌≢◌, String, false, some, ◌≡◌, ◌∙◌, refl, ap, arith,
  inl, inr, Option-cases, Bool-cases, eq_iff, List, [], ◌∷◌, is_empty,
}
use aiself_healer.JsMap
use aiself_healer.JsMap.Laws.{has-get, get-set}
use aiself_healer.AuthService.TokenStore.{Session}
use aiself_healer.AuthService.Server.State.{App, User, Request, logged_in, Env, Readings, App}
use aiself_healer.AuthService.Server.Handlers.{
  register, register_begin, register_finish, login, login_finish, refresh, renew, logout, admit,
  issue_tokens, emit_auth_event, public_user, tokens_of, presented, new_user, user_by_id, Pending,
  proceeds,
}
use aiself_healer.AuthService.Server.Accounts.{
  register-Registers, incomplete, taken, created, login-LogsIn, unknown, wrong, right,
}
use aiself_healer.AuthService.Server.Refresh as Refreshed
use aiself_healer.AuthService.Server.Refresh.{refresh-Refreshes}
use aiself_healer.AuthService.Server.Replay.{
  Call, registers, logs_in, refreshes, logs_out, ends_register, ends_login, ends_refresh, handle,
  serve,
}

module _ (env : Env) where
  module _ (app : App env) (r : Readings) (req : Request) where
    login-users : (login env app r req).0.users ≡ app.users
    login-users = elim (login-LogsIn env app r req) [
      | unknown missing e ↦ rw e refl
      | wrong user known differs e ↦ rw e refl
      | right user known fits same answer cookie ↦ same
    ]

    refresh-users : (refresh env app r req).0.users ≡ app.users
    refresh-users = elim (refresh-Refreshes env app r req) [
      | Refreshed.no_token missing e ↦ rw e refl
      | Refreshed.unknown token p f same e ↦ same.same_users
      | Refreshed.broken token p f same e ↦ same.same_users
      | Refreshed.ownerless token s p f o same e ↦ same.same_users
      | Refreshed.rotated token s user p f o i same t e c ↦ same
    ]

    logout-users : (logout env app r req).0.users ≡ app.users
    unfolding logout
    logout-users = elim (Option-cases (presented env req)) [
      | inl missing ↦ rw (missing, logout) refl
      | inr (token, given) ↦ elim (Bool-cases (is_empty token)) [
        | inl empty ↦ rw (given, logout, empty) refl
        | inr full ↦ rw (given, logout, full) refl
      ]
    ]

    register-keeps :
        (email : String) (user : User)
        → JsMap.get email app.users ≡ some user
        → JsMap.get email (register env app r req).0.users ≡ some user
    register-keeps email user h = elim (register-Registers env app r req) [
      | incomplete missing e ↦ rw e h
      | taken own password g known e ↦ rw e h
      | created own password g new users answer cookie ↦
          ground (arith, users email, has-get own app.users, eq_iff own email)
    ]

  register_finish-users :
      (app : App env) (r : Readings) (p : Pending env) (req : Request) (email : String)
      → JsMap.get email (register_finish env app r p req).0.users
        ≡ (if p.email == email then some (new_user env p r) else JsMap.get email app.users)
  unfolding register_finish admit issue_tokens emit_auth_event
  register_finish-users app r p req email = get-set p.email email (new_user env p r) app.users

  renew-users :
      (app : App env) (r : Readings) (old : String) (s : Session) (req : Request)
      → (renew env app r old s req).0.users ≡ app.users
  unfolding admit issue_tokens emit_auth_event renew
  renew-users app r old s req = elim (Option-cases (user_by_id env app s.user_id)) [
    | inl missing ↦ rw (missing, renew) refl
    | inr (user, known) ↦ rw (known, renew) refl
  ]

  -- The call does not end a registration of this email that had passed its check before.
  unfoldable pub Spares : String → Call env → Type 0
  Spares email (ends_register r p req) = p.email ≢ email
  Spares email (ends_login r user req) = Unit
  Spares email (ends_refresh r old s req) = Unit
  Spares email (registers r req) = Unit
  Spares email (logs_in r req) = Unit
  Spares email (refreshes r req) = Unit
  Spares email (logs_out r req) = Unit

  module _ (email : String) (user : User) where
    -- The email names the account.
    abbrev Has : App env → Type 0
    Has app = JsMap.get email app.users ≡ some user

    handle-keeps :
        (app : App env) (c : Call env) → Spares email c → Has app → Has (handle env app c)
    unfolding handle Spares login_finish admit issue_tokens emit_auth_event
    handle-keeps app (registers r req) u h = register-keeps app r req email user h
    handle-keeps app (logs_in r req) u h = ap (JsMap.get email) (login-users app r req) ∙ h
    handle-keeps app (refreshes r req) u h = ap (JsMap.get email) (refresh-users app r req) ∙ h
    handle-keeps app (logs_out r req) u h = ap (JsMap.get email) (logout-users app r req) ∙ h
    handle-keeps app (ends_register r p req) u h =
        ground (arith, register_finish-users app r p req email, eq_iff p.email email)
    handle-keeps app (ends_login r other req) u h = h
    handle-keeps app (ends_refresh r old s req) u h =
        ap (JsMap.get email) (renew-users app r old s req) ∙ h

    -- No sequence of requests changes an account that there is, or removes it, unless it ends a
    -- registration of the same email that had passed its check.
    pub serve-keeps :
        (cs : List (Call env)) (app : App env)
        → All (Spares email) cs
        → Has app
        → Has (serve env app cs)
    unfolding serve
    serve-keeps [] app spared h = h
    serve-keeps (c ∷ cs) app spared h =
        serve-keeps cs (handle env app c) spared.1 (handle-keeps app c spared.0 h)

  -- What a registration that waits for its hash has taken from the body.
  record Takes (req : Request) (p : Pending env) : Type 0 where
    own_email : req.email ≡ some p.email
    own_password : req.password ≡ some p.password
    filled : is_empty p.password ≡ false

  begin-Takes :
      (before : App env) (req : Request) (p : Pending env)
      → register_begin env before req ≡ proceeds p
      → Takes req p
  unfolding register_begin
  begin-Takes before req p h = elim (Option-cases req.email) [
    | inl missing ↦ absurd (ground (arith, h, missing))
    | inr (email, e) ↦ elim (Option-cases req.password) [
      | inl missing ↦ absurd (ground (arith, h, missing, e))
      | inr (password, e') ↦ record {
        own_email = ground (arith, h, e, e');
        own_password = ground (arith, h, e, e');
        filled = ground (arith, h, e, e');
      }
    ]
  ]

  -- Whoever registers an email that is new at the check of it can log in with the same email and
  -- password, from the end of the registration on, whatever was asked of the process while it
  -- waited or since, unless another registration of the email that had passed the check ends after
  -- it; and the answer names the account as it was registered.
  pub register-serve-login :
      (before app : App env) (r r' : Readings) (req again : Request) (p : Pending env)
      (cs : List (Call env))
      → register_begin env before req ≡ proceeds p
      → All (Spares p.email) cs
      → again.email ≡ req.email
      → again.password ≡ req.password
      → (login env (serve env (register_finish env app r p req).0 cs) r' again).1
        ≡ logged_in (public_user (new_user env p r)) (tokens_of env r' (new_user env p r))
  unfolding login login_finish admit issue_tokens
  register-serve-login before app r r' req again p cs began spared same same' =
      let user = new_user env p r in
      let made : JsMap.get p.email (register_finish env app r p req).0.users ≡ some user =
        register_finish-users app r p req p.email ∙ rw (eq_refl p.email) refl in
      let kept : JsMap.get p.email (serve env (register_finish env app r p req).0 cs).users
          ≡ some user =
        serve-keeps p.email user cs (register_finish env app r p req).0 spared made in
      let t = begin-Takes before req p began in
      ground (
        arith,
        kept,
        same ∙ t.own_email,
        same' ∙ t.own_password,
        env.compare-hash r.salt p.password,
        t.filled,
      )
