-- ===== src/AuthService/Server/Races.antt =====
-- Two registrations of one email that overlap: both look before either of them stores.
use aiself_healer.Common.{none, some, ◌==◌, ◌≡◌, ◌∙◌, ◌≢◌, refl, arith, eq_iff}
use aiself_healer.JsMap
use aiself_healer.JsMap.Laws.{get-set, set-set, find-values-set-none}
use aiself_healer.AuthService.Server.State.{Request, registered, Env, Readings, App}
use aiself_healer.AuthService.Server.Handlers.{
  register_begin, register_finish, Pending, proceeds, new_user, public_user, tokens_of, user_by_id,
  admit, issue_tokens, emit_auth_event,
}
use aiself_healer.AuthService.Server.Accounts.{register_finish-reply}

module _ (env : Env) (app : App env) (r r' : Readings) (req req' : Request)
    (p p' : Pending env) where
  -- the state after the first, and after both
  abbrev first : App env
  first = (register_finish env app r p req).0

  abbrev both : App env
  both = (register_finish env first r' p' req').0

  finish-users :
      (a : App env) (q : Readings) (pending : Pending env) (request : Request)
      → (register_finish env a q pending request).0.users
        ≡ JsMap.set pending.email (new_user env pending q) a.users
  unfolding register_finish admit issue_tokens emit_auth_event
  finish-users a q pending request = refl

  -- When two registrations of one email have both passed the check, the id that the first draws is
  -- not in use and the second draws another, both answer with an account, but only the second is
  -- kept: the email names it, and the id of the first, to which the first reply's tokens belong,
  -- finds no account.
  pub register_race :
      register_begin env app req ≡ proceeds p
      → register_begin env app req' ≡ proceeds p'
      → p.email ≡ p'.email
      → user_by_id env app (new_user env p r).id ≡ none
      → (new_user env p' r').id ≢ (new_user env p r).id
      → ((register_finish env app r p req).1
          ≡ registered (public_user (new_user env p r)) (tokens_of env r (new_user env p r)))
        × ((register_finish env first r' p' req').1
            ≡ registered (public_user (new_user env p' r')) (tokens_of env r' (new_user env p' r')))
        × (JsMap.get p.email both.users ≡ some (new_user env p' r'))
        × (user_by_id env both (new_user env p r).id ≡ none)
  register_race checked checked' same fresh other =
      let u = new_user env p r in
      let u' = new_user env p' r' in
      let users : both.users ≡ JsMap.set p'.email u' app.users =
        finish-users first r' p' req'
        ∙ (rw (finish-users app r p req) (rw same (set-set p'.email _ u' app.users))) in
      (
        (register_finish-reply env app r req p).0,
        (register_finish-reply env first r' req' p').0,
        rw users (ground (arith, get-set p'.email p.email u' app.users, eq_iff p'.email p.email)),
        rw users (
            find-values-set-none (λ c. c.id == u.id) p'.email u' app.users fresh
              (ground (arith, eq_iff u'.id u.id))),
      )
