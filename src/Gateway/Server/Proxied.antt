-- ===== src/Gateway/Server/Proxied.antt =====
-- What reaches the services: the requests that are handed to a proxy.
use aiself_healer.Common.{
  String, Bool, true, false, Option, none, List, [], ◌∷◌, ◌≡◌, ◌∙◌, refl, arith, text_or, inl, inr,
  if◌then◌else◌, ap, sym, ◌≢◌,
}
use aiself_healer.Gateway.MemoryRedis.{MemoryRedis}
use aiself_healer.Gateway.RateLimit.{rate_limit_middleware, limit_of, window_of}
use aiself_healer.Gateway.Auth.{Request, Outcome, next, deny, header, require_jwt, require_role}
use aiself_healer.Gateway.Auth.Tokens.{Passes, require_jwt_iff}
use aiself_healer.Gateway.Routing.{Route, sub_of}
use aiself_healer.Gateway.Server.{
  verify_at, Config, Readings, Reply, proxied, healthy, ready, metrics, snapshot, proxy_or_404,
  list_routes, put_routes, dispatch, limited, handle,
}
use aiself_healer.Gateway.Server.Table.{Verdict-cases}

module _ (config : Config) where
  -- If the result hands a request on, it is by the proxies, with this id.
  record HandsOn (i : String) (req : Request) (result : MemoryRedis × Reply) : Type 0 where
    pub handed :
        (target path id : String) (out : Request)
        → result.1 ≡ proxied target path id out
        → proxy_or_404 config config.attached i req ≡ proxied target path id out

  proxy_or_404-out :
      (rs : List Route) (i target path id : String) (req out : Request)
      → proxy_or_404 config rs i req ≡ proxied target path id out
      → out ≡ req
  unfolding proxy_or_404
  proxy_or_404-out [] i target path id req out h = absurd (ground (arith, h))
  proxy_or_404-out (route ∷ rest) i target path id req out h =
      ground (arith, h, proxy_or_404-out rest i target path id req out)

  module _ (redis : MemoryRedis) (r : Readings) (i : String) (req : Request) where
    list_routes-HandsOn : HandsOn i req (list_routes config redis r req)
    unfolding list_routes require_role
    list_routes-HandsOn = record { handed = λ target path id out h. absurd (ground arith) }

    put_routes-HandsOn :
        (body : Option (List Route)) → HandsOn i req (put_routes config redis r req body)
    unfolding put_routes require_role
    put_routes-HandsOn body = record { handed = λ target path id out h. absurd (ground arith) }

    proxy_or_404-HandsOn : HandsOn i req (redis, proxy_or_404 config config.attached i req)
    proxy_or_404-HandsOn = record { handed = λ target path id out h. h }

    choose :
        (b : Bool) (x y : MemoryRedis × Reply)
        → HandsOn i req x
        → HandsOn i req y
        → HandsOn i req (if b then x else y)
    choose true x y h k = h
    choose false x y h k = k

    dispatch-HandsOn :
        (body : Option (List Route)) → HandsOn i req (dispatch config redis r i req body)
    unfolding dispatch
    dispatch-HandsOn body =
        let no : (reply : Reply)
            → ((t p id : String) (out : Request) → reply ≢ proxied t p id out)
            → HandsOn i req (redis, reply) =
          (λ reply never. record { handed = λ t p id out h. absurd (never t p id out h) }) in
        choose _ _ _ (no healthy (λ t p id out h. ground arith)) (
          choose _ _ _ (no ready (λ t p id out h. ground arith)) (
            choose _ _ _ (no metrics (λ t p id out h. ground arith)) (
              choose _ _ _ (no snapshot (λ t p id out h. ground arith)) (
                choose _ _ _ list_routes-HandsOn
                  (choose _ _ _ (put_routes-HandsOn body) proxy_or_404-HandsOn)))))

  limited-HandsOn :
      (redis : MemoryRedis) (r : Readings) (req : Request) (i : String) (body : Option (List Route))
      → HandsOn i req (limited config redis r i req body)
  unfolding limited
  limited-HandsOn redis r req i body =
      let after =
        rate_limit_middleware redis r.limited_at r.nonce (sub_of req.user) req.ip
          (limit_of none config.per_minute) (window_of none) in
      elim (Verdict-cases after.2) [
        | inl (t, v) ↦
            rw (v, limited) (record { handed = λ target path id out h. absurd (ground arith) })
        | inr v ↦ rw (v, limited) (dispatch-HandsOn after.3 r i req body)
      ]

  -- A request that is handed on is what the token check lets through, and goes by the proxies with
  -- the id of the request.
  pub handle_handed :
      (redis : MemoryRedis) (r : Readings) (req out : Request) (body : Option (List Route))
      (target path id : String)
      → (o : Outcome) → require_jwt (verify_at config r) config.key req ≡ o
      → (handle config redis r req body).1 ≡ proxied target path id out
      → (o ≡ next out)
        × (proxy_or_404 config config.attached
              (text_or (header "x-request-id" req) r.request_uuid)
              out
            ≡ proxied target path id out)
  unfolding handle
  handle_handed redis r req out body target path id (deny d) e h = absurd (ground (arith, e, h))
  handle_handed redis r req out body target path id (next req') e h =
      let i = text_or (header "x-request-id" req) r.request_uuid in
      let reply : (limited config redis r i req' body).1 ≡ proxied target path id out =
        rw (e, handle) at h in
      let handed = (limited-HandsOn redis r req' i body).handed target path id out reply in
      let same = proxy_or_404-out config.attached i target path id req' out handed in
      (ap next (sym same), ap (λ q. proxy_or_404 config config.attached i q) same ∙ handed)

  pub handle_outcome :
      (redis : MemoryRedis) (r : Readings) (req out : Request) (body : Option (List Route))
      (target path id : String)
      → (o : Outcome) → require_jwt (verify_at config r) config.key req ≡ o
      → (handle config redis r req body).1 ≡ proxied target path id out
      → o ≡ next out
  handle_outcome redis r req out body target path id o e h =
      (handle_handed redis r req out body target path id o e h).0

  -- A request that is handed to a service is one that the token check let through, as the check
  -- has left it: on an open path, or with the identity of a token that it accepted.
  pub handle-Passes :
      (redis : MemoryRedis) (r : Readings) (req out : Request) (body : Option (List Route))
      (target path id : String)
      → (handle config redis r req body).1 ≡ proxied target path id out
      → Passes (verify_at config r) config.key req out
  handle-Passes redis r req out body target path id h =
      (require_jwt_iff (verify_at config r) config.key req out).0
        (handle_outcome redis r req out body target path id _ refl h)
