-- ===== src/AuthService/Server/Reuse.antt =====
-- Two refreshes of one token that overlap: both look it up before either of them revokes it.
use aiself_healer.Common.{◌≤◌, String, some, ◌≡◌, ◌∙◌, ap, find, ◌==◌}
use aiself_healer.JsMap
use aiself_healer.AuthService.TokenStore as Store
use aiself_healer.AuthService.TokenStore.{Session, found}
use aiself_healer.AuthService.TokenStore.Views.{get-view}
use aiself_healer.AuthService.Server.Refresh.{finds, renew-answer}
use aiself_healer.AuthService.Server.State.{User, Request, error, refreshed, Env, Readings, App}
use aiself_healer.AuthService.Server.Handlers.{renew, refresh, tokens_of, user_by_id}
use aiself_healer.AuthService.Server.Replay.{Presents, renew-spends, spent-refused}

module _ (env : Env) (app : App env) (r r' : Readings) (req req' : Request) (token : String)
    (s s' : Session) (user : User) where
  -- the state after the first lookup, and after both
  abbrev pub looked : App env
  looked = record app {
    shared = (Store.get env.client env.json app.store app.shared r.looked_at token).1;
  }

  abbrev pub looked_twice : App env
  looked_twice = record looked {
    shared = (Store.get env.client env.json looked.store looked.shared r'.looked_at token).1;
  }

  -- the state after the first refresh, and after both
  abbrev pub one : App env
  one = (renew env looked_twice r token s req).0

  abbrev pub both : App env
  both = (renew env one r' token s' req').0

  -- When two refreshes of one token whose account exists both look it up before either of them
  -- revokes it, the later lookup finds it too, and both are answered with new tokens: the token is
  -- good for two. A refresh that begins with it after both is answered with 401.
  pub refresh_race :
      (r'' : Readings) (again : Request)
      → Presents env again token
      → finds env app r.looked_at token ≡ found s
      → finds env app r'.looked_at token ≡ found s'
      → r.looked_at ≤ r'.looked_at
      → user_by_id env app s.user_id ≡ some user
      → user_by_id env app s'.user_id ≡ some user
      → ((Store.get env.client env.json looked.store looked.shared r'.looked_at token).0 ≡ found s')
        × ((renew env looked_twice r token s req).1 ≡ refreshed (tokens_of env r user))
        × ((renew env one r' token s' req').1 ≡ refreshed (tokens_of env r' user))
        × ((refresh env both r'' again).1 ≡ error 401 "invalid_refresh_token")
  refresh_race r'' again presents finds_one finds_two ordered known known' =
      let (users, reply, cookie) = renew-answer env app r req looked_twice token s user known in
      let still : user_by_id env one s'.user_id ≡ some user =
        ap (λ m. find (λ c. c.id == s'.user_id) (JsMap.values m)) users ∙ known' in
      let (users', reply', cookie') = renew-answer env one r' req' one token s' user still in
      (
        (get-view env.client env.json looked.store looked.shared r'.looked_at token).0
            ∙ (get-view env.client env.json app.store app.shared r.looked_at token).1 r'.looked_at
                token ordered
            ∙ finds_two,
        reply,
        reply',
        spent-refused env r'' again token both presents
            (renew-spends env r' req' token one s' _ reply'),
      )
