-- ===== src/Gateway/Server/Table.antt =====
-- The table of routes that Redis holds: who changes it, and who reads what.
use mathlib.Core.Option.{Option, none, some}
use aiself_healer.Common.{
  ℕ, ◌≤◌, ◌+◌, ◌*◌, String, Bool, true, false, List, [], ◌∷◌, ◌≡◌, ◌⊎◌, inl, inr, ◌∙◌, refl, ap,
  arith, ltb, if◌then◌else◌, ◌≢◌, Option-cases, text_or,
}
use aiself_healer.Gateway.MemoryRedis as Memory
use aiself_healer.Gateway.MemoryRedis.{MemoryRedis}
use aiself_healer.Gateway.MemoryRedis.View.{view, get-view, view-set_ex}
use aiself_healer.Gateway.RateLimit as Limit
use aiself_healer.Gateway.RateLimit.{
  rate_limit_middleware, Verdict, rate_limit_exceeded, limit_of, window_of, check_rate_limit,
}
use aiself_healer.Gateway.Auth.{
  Request, Outcome, header, next, deny, Denial, require_jwt, require_role, includes, user_roles,
}
use aiself_healer.Gateway.Routing.{Route, get_routes, sub_of}
use aiself_healer.Gateway.Server.{
  verify_at, Config, Readings, Reply, denied, routes, updated, healthy, ready, metrics, snapshot,
  not_found, routes_or_empty, proxy_or_404, list_routes, put_routes, dispatch, limited, handle,
}

abbrev pub routes_key : String
routes_key = "gateway:routes"

-- The limiter leaves every value of the client.
limiter-values :
    (redis : MemoryRedis) (now : ℕ) (member : String) (sub ip : Option String) (limit window : ℕ)
    → (rate_limit_middleware redis now member sub ip limit window).3.values ≡ redis.values
unfolding rate_limit_middleware check_rate_limit Memory.exec Memory.run_op Memory.zremrangebyscore
    Memory.zadd Memory.zcard Memory.expire
limiter-values redis now member sub ip limit window = refl

view-values :
    (a b : MemoryRedis) (t : ℕ) (k : String) → a.values ≡ b.values → view a t k ≡ view b t k
unfolding view
view-values a b t k e = rw e refl

pub Outcome-cases :
    (o : Outcome) → ((d : Denial) × (o ≡ deny d)) ⊎ ((req : Request) × (o ≡ next req))
Outcome-cases (deny d) = inl (d, refl)
Outcome-cases (next req) = inr (req, refl)

pub Verdict-cases :
    (v : Verdict) → ((after : ℕ) × (v ≡ rate_limit_exceeded after)) ⊎ (v ≡ Limit.next)
Verdict-cases (rate_limit_exceeded after) = inl (after, refl)
Verdict-cases Limit.next = inr refl

module _ (config : Config) where
  -- The request is let in by the token check as a request of a super admin.
  abbrev pub IsAdmin : Readings → Request → Type 0
  IsAdmin r req =
      (req' : Request) × (require_jwt (verify_at config r) config.key req ≡ next req')
      × (includes (user_roles req'.user) "super_admin" ≡ true)

  -- What a request does to the routes that Redis holds: nothing that shows, or a write by a super
  -- admin, which the reply tells.
  pub data Effect (redis : MemoryRedis) (r : Readings) (Admin : Type 0)
      (result : MemoryRedis × Reply) : Type 0 where
    keeps :
        ((t : ℕ) → r.routes_at ≤ t → view result.0 t routes_key ≡ view redis t routes_key)
        → ((rs : List Route) → result.1 ≢ updated rs)
        → ((rs : List Route)
            → result.1 ≡ routes rs
            → rs ≡ get_routes config.json config.env (view redis r.routes_at routes_key))
        → Effect redis r Admin result
    writes :
        (rs : List Route)
        → Admin
        → result.1 ≡ updated rs
        → ((t : ℕ)
            → view result.0 t routes_key
              ≡ (if ltb t (r.routes_at + 3600 * 1000) then some (config.json.encode rs) else none))
        → Effect redis r Admin result

  module _ (redis : MemoryRedis) (r : Readings) (req : Request) where
    abbrev Admin : Type 0
    Admin = includes (user_roles req.user) "super_admin" ≡ true

    -- A reply with no routes in it, and the client as it was.
    quiet :
        (reply : Reply)
        → ((rs : List Route) → reply ≢ updated rs)
        → ((rs : List Route) → reply ≢ routes rs)
        → Effect redis r Admin (redis, reply)
    quiet reply u g = keeps (λ t h. refl) u (λ rs h. absurd (g rs h))

    list_routes-Effect : Effect redis r Admin (list_routes config redis r req)
    unfolding list_routes
    list_routes-Effect = elim (Outcome-cases (require_role ("super_admin" ∷ "operator" ∷ []) req)) [
      | inl (d, e) ↦
          rw (e, list_routes) (quiet (denied d) (λ rs h. ground arith) (λ rs h. ground arith))
      | inr (req', e) ↦
          let read = get-view redis r.routes_at routes_key in
          rw (e, list_routes)
            (keeps (λ t h. read.1 t routes_key h) (λ rs h. ground arith)
              (λ rs h. ground (arith, h, read.0)))
    ]

    require_role-admin :
        (req' : Request) → require_role ("super_admin" ∷ []) req ≡ next req' → Admin
    unfolding require_role
    require_role-admin req' h = ground arith

    put_routes-Effect :
        (body : Option (List Route)) → Effect redis r Admin (put_routes config redis r req body)
    unfolding put_routes
    put_routes-Effect body = elim (Outcome-cases (require_role ("super_admin" ∷ []) req)) [
      | inl (d, e) ↦
          rw (e, put_routes) (quiet (denied d) (λ rs h. ground arith) (λ rs h. ground arith))
      | inr (req', e) ↦
          let rs = routes_or_empty body in
          rw (e, put_routes)
            (writes rs (require_role-admin req' e) refl (λ t.
              view-set_ex redis r.routes_at t routes_key routes_key (config.json.encode rs) 3600
                (omega arith)))
    ]

    proxy_or_404-Effect :
        (id : String) (rs : List Route)
        → Effect redis r Admin (redis, proxy_or_404 config rs id req)
    unfolding proxy_or_404
    proxy_or_404-Effect id [] =
        quiet (not_found req.path) (λ rs h. ground arith) (λ rs h. ground arith)
    proxy_or_404-Effect id (route ∷ rest) =
        elim (Option-cases (config.mounted route.prefix req.path)) [
          | inl missing ↦ rw (missing, proxy_or_404) (proxy_or_404-Effect id rest)
          | inr (path, under) ↦
              rw (under, proxy_or_404) (quiet _ (λ rs h. ground arith) (λ rs h. ground arith))
        ]

    choose :
        (b : Bool) (x y : MemoryRedis × Reply)
        → Effect redis r Admin x
        → Effect redis r Admin y
        → Effect redis r Admin (if b then x else y)
    choose true x y h k = h
    choose false x y h k = k

    dispatch-Effect :
        (id : String) (body : Option (List Route))
        → Effect redis r Admin (dispatch config redis r id req body)
    unfolding dispatch
    dispatch-Effect id body =
        let no : (reply : Reply)
            → ((rs : List Route) → reply ≢ updated rs)
            → ((rs : List Route) → reply ≢ routes rs)
            → Effect redis r Admin (redis, reply) =
          quiet in
        choose _ _ _ (no healthy (λ rs h. ground arith) (λ rs h. ground arith)) (
          choose _ _ _ (no ready (λ rs h. ground arith) (λ rs h. ground arith)) (
            choose _ _ _ (no metrics (λ rs h. ground arith) (λ rs h. ground arith)) (
              choose _ _ _ (no snapshot (λ rs h. ground arith) (λ rs h. ground arith)) (
                choose _ _ _ list_routes-Effect (
                  choose _ _ _ (put_routes-Effect body)
                    (proxy_or_404-Effect id config.attached))))))

  -- The effect on a client with the same values, for a weaker condition.
  Effect-moved :
      (a b : MemoryRedis) (r : Readings) (P Q : Type 0) (result : MemoryRedis × Reply)
      → a.values ≡ b.values
      → (P → Q)
      → Effect a r P result
      → Effect b r Q result
  Effect-moved a b r P Q result same f (keeps k u g) =
      keeps (λ t h. k t h ∙ view-values a b t routes_key same) u
        (λ rs h.
          g rs h
          ∙ ap (get_routes config.json config.env) (view-values a b r.routes_at routes_key same))
  Effect-moved a b r P Q result same f (writes rs p u v) = writes rs (f p) u v

  -- The effect for any condition that holds of a request that is let in as a super admin's.
  handle-admin :
      (redis : MemoryRedis) (r : Readings) (req : Request) (body : Option (List Route)) (P : Type 0)
      → (IsAdmin r req → P)
      → Effect redis r P (handle config redis r req body)
  unfolding handle limited
  handle-admin redis r req body P f =
      elim (Outcome-cases (require_jwt (verify_at config r) config.key req)) [
        | inl (d, e) ↦
            rw (e, handle)
              (keeps (λ t h. refl) (λ rs h. ground arith) (λ rs h. absurd (ground arith)))
        | inr (req', e) ↦ rw (e, handle) (behind req' e)
      ]
    where
      behind :
          (req' : Request)
          → require_jwt (verify_at config r) config.key req ≡ next req'
          → Effect redis r P (
              limited config redis r (text_or (header "x-request-id" req) r.request_uuid) req' body)
      behind req' e =
          let after =
            rate_limit_middleware redis r.limited_at r.nonce (sub_of req'.user) req'.ip
              (limit_of none config.per_minute) (window_of none) in
          let same =
            limiter-values redis r.limited_at r.nonce (sub_of req'.user) req'.ip
              (limit_of none config.per_minute) (window_of none) in
          elim (Verdict-cases after.2) [
            | inl (t, v) ↦
                rw (v, limited)
                  (keeps (λ t h. view-values after.3 redis t routes_key same) (λ rs h. ground arith)
                    (λ rs h. absurd (ground arith)))
            | inr v ↦
                rw (v, limited)
                  (Effect-moved after.3 redis r _ _ _ same (λ admin. f (req', e, admin))
                    (dispatch-Effect after.3 r req' _ body))
          ]

  -- A request changes the routes that Redis holds only by the write of a super admin, which is
  -- answered with them and lasts an hour; a list of routes is answered as Redis holds it, the
  -- default ones where it holds none.
  pub handle-Effect :
      (redis : MemoryRedis) (r : Readings) (req : Request) (body : Option (List Route))
      → Effect redis r (IsAdmin r req) (handle config redis r req body)
  handle-Effect redis r req body = handle-admin redis r req body (IsAdmin r req) (λ admin. admin)
