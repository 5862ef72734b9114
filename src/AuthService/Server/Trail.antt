-- ===== src/AuthService/Server/Trail.antt =====
-- Sequences of requests to one process: what the counter and the audit topic tell of them.
use aiself_healer.Common.{
  String, ◌≡◌, ◌∙◌, refl, ap, arith, inl, inr, Bool, true, false, Option-cases, Bool-cases, List,
  [], ◌∷◌, map, is_empty, if◌then◌else◌, text_or,
}
use aiself_healer.AuthService.TokenStore as Store
use aiself_healer.AuthService.TokenStore.{Session, Lookup, found, absent, malformed}
use aiself_healer.AuthService.Server.State.{
  User, Request, Env, Readings, App, Reply, error, registered, logged_in, refreshed, logged_out,
  crashed, AuditEvent,
}
use aiself_healer.AuthService.Server.Handlers.{
  Pending, login_finish, register, register_finish, login, refresh, refresh_with, renew, logout,
  admit, issue_tokens, emit_auth_event, presented, user_by_id, user_by_email,
}
use aiself_healer.AuthService.Server.Accounts.{
  register-Registers, incomplete, taken, created, register_new,
}
use aiself_healer.AuthService.Server.Replay.{
  Call, registers, logs_in, refreshes, logs_out, ends_register, ends_login, ends_refresh, handle,
  serve,
}

-- The label that an answer stands for, in front of others.
abbrev pub cons_label : Reply → List String → List String
cons_label (error status reason) labels = labels
cons_label (registered user tokens) labels = "register" ∷ labels
cons_label (logged_in user tokens) labels = "login" ∷ labels
cons_label (refreshed tokens) labels = "refresh" ∷ labels
cons_label logged_out labels = labels
cons_label crashed labels = labels

abbrev pub actions : List AuditEvent → List String
actions events = map (λ e. e.action) events

if-same : (b : Bool) (labels : List String) → labels ≡ (if b then labels else labels)
if-same true labels = refl
if-same false labels = refl

actions-if :
    (b : Bool) (event : AuditEvent) (events : List AuditEvent)
    → actions (if b then event ∷ events else events)
      ≡ (if b then event.action ∷ actions events else actions events)
actions-if true event events = refl
actions-if false event events = refl

module _ (env : Env) where
  -- What an answer adds to the counter, and to the topic if there is a producer.
  abbrev Tells : App env → App env → Reply → Type 0
  Tells app app' reply =
      (app'.counted ≡ cons_label reply app.counted)
      × (actions app'.audit
          ≡ (if env.has_producer then cons_label reply (actions app.audit) else actions app.audit))

  quiet : (app : App env) → Tells app app logged_out
  quiet app = (refl, if-same env.has_producer (actions app.audit))

  module _ (app : App env) (r : Readings) (req : Request) where
    register-Tells : Tells app (register env app r req).0 (register env app r req).1
    unfolding register_finish admit issue_tokens emit_auth_event
    register-Tells = elim (register-Registers env app r req) [
      | incomplete missing e ↦ rw e (quiet app)
      | taken own password g known e ↦ rw e (quiet app)
      | created own password g new users answer cookie ↦
          rw (register_new env app r req own password g new)
            (refl, actions-if env.has_producer _ app.audit)
    ]

    login-Tells : Tells app (login env app r req).0 (login env app r req).1
    unfolding login login_finish admit issue_tokens emit_auth_event
    login-Tells = elim (Option-cases (user_by_email env app req.email)) [
      | inl missing ↦ rw (missing, login) (quiet app)
      | inr (user, known) ↦
          elim (Bool-cases (env.compare (text_or req.password "") user.password_hash)) [
            | inl fits ↦ rw (known, login, fits) (refl, actions-if env.has_producer _ app.audit)
            | inr differs ↦ rw (known, login, differs) (quiet app)
          ]
    ]

    renew-Tells :
        (a : App env) (token : String) (session : Session)
        → a.counted ≡ app.counted
        → a.audit ≡ app.audit
        → Tells app (renew env a r token session req).0 (renew env a r token session req).1
    unfolding renew admit issue_tokens emit_auth_event
    renew-Tells a token session c e = elim (Option-cases (user_by_id env a session.user_id)) [
      | inl missing ↦ rw (missing, renew, c, e) (quiet app)
      | inr (user, known) ↦ rw (known, renew, c, e) (refl, actions-if env.has_producer _ app.audit)
    ]

    refresh_with-Tells :
        (token : String) (l : Lookup)
        → (Store.get env.client env.json app.store app.shared r.looked_at token).0 ≡ l
        → Tells app (refresh_with env app r token req).0 (refresh_with env app r token req).1
    unfolding refresh_with
    refresh_with-Tells token absent e = rw (e, refresh_with) (quiet app)
    refresh_with-Tells token malformed e = rw (e, refresh_with) (quiet app)
    refresh_with-Tells token (found s) e = rw (e, refresh_with) (renew-Tells _ token s refl refl)

    refresh-Tells : Tells app (refresh env app r req).0 (refresh env app r req).1
    unfolding refresh
    refresh-Tells = elim (Option-cases (presented env req)) [
      | inl missing ↦ rw (missing, refresh) (quiet app)
      | inr (token, given) ↦ elim (Bool-cases (is_empty token)) [
        | inl empty ↦ rw (given, refresh, empty) (quiet app)
        | inr full ↦ rw (given, refresh, full) (refresh_with-Tells token _ refl)
      ]
    ]

    logout-Tells : Tells app (logout env app r req).0 (logout env app r req).1
    unfolding logout
    logout-Tells = elim (Option-cases (presented env req)) [
      | inl missing ↦ rw (missing, logout) (quiet app)
      | inr (token, given) ↦ elim (Bool-cases (is_empty token)) [
        | inl empty ↦ rw (given, logout, empty) (quiet app)
        | inr full ↦ rw (given, logout, full) (quiet app)
      ]
    ]

    login_finish-Tells :
        (user : User)
        → Tells app (login_finish env app r user req).0 (login_finish env app r user req).1
    unfolding login_finish admit issue_tokens emit_auth_event
    login_finish-Tells user = (refl, actions-if env.has_producer _ app.audit)

    register_finish-Tells :
        (p : Pending env)
        → Tells app (register_finish env app r p req).0 (register_finish env app r p req).1
    unfolding register_finish admit issue_tokens emit_auth_event
    register_finish-Tells p = (refl, actions-if env.has_producer _ app.audit)

  -- the reply to a request
  pub reply_to : App env → Call env → Reply
  reply_to app (registers r req) = (register env app r req).1
  reply_to app (logs_in r req) = (login env app r req).1
  reply_to app (refreshes r req) = (refresh env app r req).1
  reply_to app (logs_out r req) = (logout env app r req).1
  reply_to app (ends_register r p req) = (register_finish env app r p req).1
  reply_to app (ends_login r user req) = (login_finish env app r user req).1
  reply_to app (ends_refresh r old s req) = (renew env app r old s req).1

  handle-Tells : (app : App env) (c : Call env) → Tells app (handle env app c) (reply_to app c)
  unfolding handle reply_to
  handle-Tells app (registers r req) = register-Tells app r req
  handle-Tells app (logs_in r req) = login-Tells app r req
  handle-Tells app (refreshes r req) = refresh-Tells app r req
  handle-Tells app (logs_out r req) = logout-Tells app r req
  handle-Tells app (ends_register r p req) = register_finish-Tells app r req p
  handle-Tells app (ends_login r user req) = login_finish-Tells app r req user
  handle-Tells app (ends_refresh r old s req) = renew-Tells app r req app old s refl refl

  -- the labels of the replies to requests, the latest first, in front of others
  pub labels_of : App env → List (Call env) → List String → List String
  labels_of app [] labels = labels
  labels_of app (c ∷ cs) labels =
      labels_of (handle env app c) cs (cons_label (reply_to app c) labels)

  -- After any requests to the process, among them the ends of requests that had waited, the counter
  -- was increased once for each registration, login and refresh that was granted, in order and under
  -- its name, and by nothing else: a logout is not told. The same actions were handed to the producer
  -- of the audit topic if there is one, and none if there is not.
  pub serve-tells :
      (cs : List (Call env)) (app : App env)
      → ((serve env app cs).counted ≡ labels_of app cs app.counted)
        × (actions (serve env app cs).audit ≡ (
            if env.has_producer then labels_of app cs (actions app.audit) else actions app.audit))
  unfolding serve labels_of
  serve-tells [] app = quiet app
  serve-tells (c ∷ cs) app =
      let (counted, sent) = handle-Tells app c in
      let (counted', sent') = serve-tells cs (handle env app c) in
      (counted' ∙ ap (labels_of (handle env app c) cs) counted, ground (arith, sent, sent'))
