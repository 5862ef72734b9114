-- ===== src/Gateway/Server/Routed.antt =====
-- Where a request is handed to, and what a write of the routes changes about it.
use aiself_healer.Common.{
  ℕ, String, false, Option, none, some, List, [], ◌∷◌, ◌≡◌, refl, ap, arith, Option-cases, inl, inr,
  text_or, is_empty,
}
use aiself_healer.JsMap
use aiself_healer.JsMap.{JsMap}
use aiself_healer.Gateway.MemoryRedis.{MemoryRedis}
use aiself_healer.Gateway.Auth.{Request, header}
use aiself_healer.Gateway.Routing as Routing
use aiself_healer.Gateway.Routing.{
  Route, Proxy, proxy_of, timeout_of, attach_proxy_routes, proxy_req,
}
use aiself_healer.Gateway.Routing.Headers.{get-proxy_req}
use aiself_healer.Gateway.Server.{Config, proxied, proxy_or_404}
use aiself_healer.Gateway.Server.Proxied.{handle_handed}
use aiself_healer.Gateway.Server.Listing.{Input, respond}
use aiself_healer.Gateway.Startup.{exchange}

-- The first of the proxies that a path is under, with the path behind its prefix.
abbrev pub first_proxy :
    (String → String → Option String) → List Proxy → String → Option (Proxy × String)
first_proxy mounted [] path = none
first_proxy mounted (proxy ∷ rest) path =
    let later = first_proxy mounted rest path in
    elim (mounted proxy.prefix path) [ none ↦ later | some behind ↦ some (proxy, behind) ]

text_or-filled :
    (o : Option String) (d : String) → is_empty d ≡ false → is_empty (text_or o d) ≡ false
text_or-filled none d h = h
text_or-filled (some a) d h = ground (arith, h)

module _ (config : Config) (setting : Option ℕ) where
  -- A request is handed to the first proxy that its path is under.
  pub record IsRouted (req : Request) (target path : String) : Type 0 where
    pub proxy : Proxy
    pub behind : String
    pub first :
        first_proxy config.mounted (attach_proxy_routes setting config.attached) req.path
        ≡ some (proxy, behind)
    pub to : target ≡ proxy.target
    pub rewritten : path ≡ proxy.path_rewrite behind

  proxy_or_404-IsRouted :
      (rs : List Route) (i target path id : String) (req out : Request)
      → proxy_or_404 config rs i req ≡ proxied target path id out
      → (proxy : Proxy) × (behind : String) × (first_proxy config.mounted
            (attach_proxy_routes setting rs)
            req.path
          ≡ some (proxy, behind))
        × (target ≡ proxy.target)
        × (path ≡ proxy.path_rewrite behind)
        × (id ≡ i)
  unfolding proxy_or_404 attach_proxy_routes
  proxy_or_404-IsRouted [] i target path id req out h = absurd (ground (arith, h))
  proxy_or_404-IsRouted (route ∷ rest) i target path id req out h =
      elim (Option-cases (config.mounted route.prefix req.path)) [
        | inl missing ↦
            let later : proxy_or_404 config rest i req ≡ proxied target path id out =
              rw (missing, proxy_or_404) at h in
            rw missing (proxy_or_404-IsRouted rest i target path id req out later)
        | inr (behind, under) ↦
            let own : proxied route.target (Routing.path_rewrite route behind) i req
                ≡ proxied target path id out =
              rw (under, proxy_or_404) at h in
            (
              proxy_of (timeout_of setting) route,
              behind,
              rw under refl,
              ground (arith, own),
              ground (arith, own),
              ground (arith, own),
            )
      ]

  -- A request that is handed to a service goes to the first of the proxies attached at the start
  -- that its path is under, whatever Redis holds by then, and under the id that the client is
  -- answered with, which the service reads in its header: a drawn id is not empty.
  pub handle-IsRouted :
      (redis : MemoryRedis) (c : Input) (out : Request) (target path id : String)
      (copied : JsMap String)
      → is_empty c.readings.request_uuid ≡ false
      → (respond config redis c).1 ≡ proxied target path id out
      → IsRouted out target path
        × (id
            ≡ (exchange config
                (record { redis = redis; requests = []; latency = [] })
                c
                200
                path).1.request_id)
        × (JsMap.get "x-request-id" (proxy_req id out.user copied) ≡ some id)
  unfolding exchange
  handle-IsRouted redis c out target path id copied filled h =
      let handed =
        (handle_handed config redis c.readings c.request out c.body target path id _ refl h).1 in
      let (proxy, behind, first, to, rewritten, same) =
        proxy_or_404-IsRouted config.attached _ target path id out out handed in
      (
        record { proxy = proxy; behind = behind; first = first; to = to; rewritten = rewritten },
        same,
        rw (get-proxy_req id out.user copied "x-request-id") (
            ground (
              arith,
              ap is_empty same,
              text_or-filled (header "x-request-id" c.request) c.readings.request_uuid filled,
            )),
      )
