-- ===== src/AuthService/Server/Accounts.antt =====
-- What registering and logging in answer, and the accounts that they leave.
use aiself_healer.Common.{
  String, true, false, ◌||◌, ◌&&◌, none, some, ◌==◌, if◌then◌else◌, ◌≡◌, ◌∙◌, ◌⊎◌, refl, arith,
  is_empty, truthy, text_or, eq_refl, inl, inr, Option-cases, Bool-cases,
}
use aiself_healer.JsMap
use aiself_healer.JsMap.Laws.{get-set}
use aiself_healer.AuthService.Server.State.{
  User, Request, Reply, error, registered, logged_in, Cookie, untouched, stored, Env, Readings, App,
}
use aiself_healer.AuthService.Server.Handlers.{
  login_finish, register, register_begin, register_finish, login, admit, issue_tokens,
  emit_auth_event, new_user, public_user, tokens_of, cookie_age, or_default, roles_or_default,
  Pending, user_by_email,
}

module _ (env : Env) (app : App env) (r : Readings) (req : Request) where
  -- The accounts of the state after issuing tokens and sending the event are those before.
  admit-users :
      (action : String) (user : User) → (admit env app r action user req).0.users ≡ app.users
  unfolding admit issue_tokens emit_auth_event
  admit-users action user = refl

  pub admit-tokens :
      (action : String) (user : User) → (admit env app r action user req).1 ≡ tokens_of env r user
  unfolding admit issue_tokens
  admit-tokens action user = refl

  -- What a body asks to register.
  abbrev pub pending_of : String → String → Pending env
  pending_of email password = record {
    email = email;
    password = password;
    tenant_id = or_default env req.tenant_id "tenant-demo";
    roles = roles_or_default env req.roles;
  }

  -- The texts of the body are given and not empty.
  pub record Gives (email password : String) : Type 0 where
    pub email_given : req.email ≡ some email
    pub password_given : req.password ≡ some password
    pub filled : (is_empty email || is_empty password) ≡ false

  abbrev pub account : String → String → User
  account email password = new_user env (pending_of email password) r

  -- The answers to a registration, with what each one leaves.
  pub data Registers (result : App env × Reply × Cookie) : Type 0 where
    incomplete :
        (truthy req.email && truthy req.password) ≡ false
        → result ≡ (app, error 400 "email_and_password_required", untouched)
        → Registers result
    taken :
        (email password : String)
        → Gives email password
        → JsMap.has email app.users ≡ true
        → result ≡ (app, error 409 "user_exists", untouched)
        → Registers result
    created :
        (email password : String)
        → Gives email password
        → JsMap.has email app.users ≡ false
        → ((key : String)
            → JsMap.get key result.0.users
              ≡ (if email == key then some (account email password) else JsMap.get key app.users))
        → result.1
          ≡ registered
              (public_user (account email password))
              (tokens_of env r (account email password))
        → result.2 ≡ stored r.token_uuid cookie_age
        → Registers result

  register_finish-users :
      (p : Pending env) (key : String)
      → JsMap.get key (register_finish env app r p req).0.users
        ≡ (if p.email == key then some (new_user env p r) else JsMap.get key app.users)
  unfolding register_finish admit issue_tokens emit_auth_event
  register_finish-users p key = get-set p.email key (new_user env p r) app.users

  pub register_finish-reply :
      (p : Pending env)
      → ((register_finish env app r p req).1
          ≡ registered (public_user (new_user env p r)) (tokens_of env r (new_user env p r)))
        × ((register_finish env app r p req).2 ≡ stored r.token_uuid cookie_age)
  unfolding register_finish admit issue_tokens
  register_finish-reply p = (refl, refl)

  register_missing :
      (truthy req.email && truthy req.password) ≡ false
      → register env app r req ≡ (app, error 400 "email_and_password_required", untouched)
  unfolding register register_begin
  register_missing h = ground arith

  register_taken :
      (email password : String)
      → Gives email password
      → JsMap.has email app.users ≡ true
      → register env app r req ≡ (app, error 409 "user_exists", untouched)
  unfolding register register_begin
  register_taken email password g h = ground arith

  pub register_new :
      (email password : String)
      → Gives email password
      → JsMap.has email app.users ≡ false
      → register env app r req ≡ register_finish env app r (pending_of email password) req
  unfolding register register_begin
  register_new email password g h = ground arith

  -- A registration of a new email leaves the account that the body asks for under it.
  pub register-makes :
      (email password : String)
      → Gives email password
      → JsMap.has email app.users ≡ false
      → JsMap.get email (register env app r req).0.users ≡ some (account email password)
  register-makes email password g new =
      rw (register_new email password g new)
        (register_finish-users (pending_of email password) email ∙ rw (eq_refl email) refl)

  Gives-cases :
      ((truthy req.email && truthy req.password) ≡ false)
      ⊎ ((email : String) × (password : String) × Gives email password)
  Gives-cases = elim (Option-cases req.email) [
    | inl missing ↦ inl (ground arith)
    | inr (email, e) ↦ elim (Option-cases req.password) [
      | inl missing ↦ inl (ground arith)
      | inr (password, p) ↦ elim (Bool-cases (is_empty email || is_empty password)) [
        | inl empty ↦ inl (ground arith)
        | inr full ↦
            inr (email, password, record { email_given = e; password_given = p; filled = full })
      ]
    ]
  ]

  -- With no other request in between: a registration without an email or a password answers 400, one with an email that an account
  -- has answers 409, and neither changes anything. Any other adds exactly the account that the
  -- body asks for, with the tenant and the roles that the body names, leaves every other account,
  -- and answers with that account and its tokens.
  pub register-Registers : Registers (register env app r req)
  register-Registers = elim Gives-cases [
    | inl missing ↦ incomplete missing (register_missing missing)
    | inr (email, password, g) ↦ elim (Bool-cases (JsMap.has email app.users)) [
      | inl known ↦ taken email password g known (register_taken email password g known)
      | inr new ↦
          let p = pending_of email password in
          rw (register_new email password g new) (
            created email password g new (register_finish-users p) (register_finish-reply p).0
              (register_finish-reply p).1)
    ]
  ]

-- Whoever registers can log in with the same email and password, at once or after any requests
-- that leave the account, and the answer names the account as it was registered.
pub register-login :
    (env : Env) (app later : App env) (r r' : Readings) (req again : Request)
    (email password : String)
    → Gives env app r req email password
    → JsMap.has email app.users ≡ false
    → JsMap.get email later.users ≡ JsMap.get email (register env app r req).0.users
    → again.email ≡ some email
    → again.password ≡ some password
    → (login env later r' again).1
      ≡ logged_in
          (public_user (account env app r req email password))
          (tokens_of env r' (account env app r req email password))
unfolding login login_finish admit issue_tokens
register-login env app later r r' req again email password g new same e p =
    let u = account env app r req email password in
    let stored_user : JsMap.get email later.users ≡ some u =
      same ∙ register-makes env app r req email password g new in
    ground (arith, stored_user, env.compare-hash r.salt password, g.filled)

module _ (env : Env) (app : App env) (r : Readings) (req : Request) where
  -- The answers to a login, with what each one leaves.
  pub data LogsIn (result : App env × Reply × Cookie) : Type 0 where
    unknown :
        user_by_email env app req.email ≡ none
        → result ≡ (app, error 401 "invalid_credentials", untouched)
        → LogsIn result
    wrong :
        (user : User)
        → user_by_email env app req.email ≡ some user
        → env.compare (text_or req.password "") user.password_hash ≡ false
        → result ≡ (app, error 401 "invalid_credentials", untouched)
        → LogsIn result
    right :
        (user : User)
        → user_by_email env app req.email ≡ some user
        → env.compare (text_or req.password "") user.password_hash ≡ true
        → result.0.users ≡ app.users
        → result.1 ≡ logged_in (public_user user) (tokens_of env r user)
        → result.2 ≡ stored r.token_uuid cookie_age
        → LogsIn result

  -- A login with no account of that email, or with a password that does not fit its hash, answers
  -- 401 and changes nothing; any other answers with the account and its tokens, and changes no
  -- account.
  pub login-LogsIn : LogsIn (login env app r req)
  unfolding login login_finish admit issue_tokens emit_auth_event
  login-LogsIn = elim (Option-cases (user_by_email env app req.email)) [
    | inl missing ↦ unknown missing (ground arith)
    | inr (user, known) ↦
        elim (Bool-cases (env.compare (text_or req.password "") user.password_hash)) [
          | inl fits ↦ right user known fits (ground arith) (ground arith) (ground arith)
          | inr differs ↦ wrong user known differs (ground arith)
        ]
  ]
