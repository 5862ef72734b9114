-- ===== src/Gateway/Server/Listing.antt =====
-- Sequences of requests to the gateway: what a list of the routes answers after a write of them.
use aiself_healer.Common.{
  ℕ, ◌≤◌, ◌+◌, ◌*◌, Option, some, none, List, [], ◌∷◌, ◌≡◌, ◌∙◌, refl, ap, arith, ltb,
  if◌then◌else◌, All, Bool-cases, inl, inr,
}
use aiself_healer.Gateway.MemoryRedis.{MemoryRedis}
use aiself_healer.Gateway.MemoryRedis.View.{view}
use aiself_healer.Gateway.Auth.{Request}
use aiself_healer.Gateway.Routing.{Route, get_routes, default_routes}
use aiself_healer.Gateway.Server.{Config, Readings, Reply, routes, updated, handle}
use aiself_healer.Gateway.Server.Table.{IsAdmin, keeps, writes, handle-Effect, routes_key}

pub record Input : Type 0 where
  pub readings : Readings
  pub request : Request
  pub body : Option (List Route)

module _ (config : Config) where
  abbrev pub respond : MemoryRedis → Input → MemoryRedis × Reply
  respond redis c = handle config redis c.readings c.request c.body

  unfoldable pub serve : MemoryRedis → List Input → MemoryRedis
  serve redis [] = redis
  serve redis (c ∷ cs) = serve (respond redis c).0 cs

  -- Requests that no super admin sends, with their clock not past a time.
  abbrev pub IsQuiet : ℕ → List Input → Type 0
  IsQuiet t = All (λ c. ¬ IsAdmin config c.readings c.request × (c.readings.routes_at ≤ t))

  serve-view :
      (t : ℕ) (cs : List Input) (redis : MemoryRedis)
      → IsQuiet t cs
      → view (serve redis cs) t routes_key ≡ view redis t routes_key
  unfolding serve
  serve-view t [] redis h = refl
  serve-view t (c ∷ cs) redis h =
      serve-view t cs (respond redis c).0 h.1
      ∙ elim (handle-Effect config redis c.readings c.request c.body) [
        | keeps k u g ↦ k t h.0.1
        | writes rs admin u v ↦ absurd (h.0.0 admin)
      ]

  written :
      (redis : MemoryRedis) (c : Input) (rs : List Route) (t : ℕ)
      → (respond redis c).1 ≡ updated rs
      → view (respond redis c).0 t routes_key ≡ (
          if ltb t (c.readings.routes_at + 3600 * 1000) then some (config.json.encode rs) else none)
  written redis c rs t h = elim (handle-Effect config redis c.readings c.request c.body) [
    | keeps k u g ↦ absurd (u rs h)
    | writes rs' admin u v ↦ ground (arith, h, u, v t)
  ]

  listed :
      (redis : MemoryRedis) (c : Input) (rs : List Route)
      → (respond redis c).1 ≡ routes rs
      → rs ≡ get_routes config.json config.env (view redis c.readings.routes_at routes_key)
  listed redis c rs h = elim (handle-Effect config redis c.readings c.request c.body) [
    | keeps k u g ↦ g rs h
    | writes rs' admin u v ↦ absurd (ground (arith, h, u))
  ]

  get_routes-encode :
      (rs : List Route) → get_routes config.json config.env (some (config.json.encode rs)) ≡ rs
  unfolding get_routes
  get_routes-encode rs = rw (config.json.encode-filled rs) (rw (config.json.decode-encode rs) refl)

  get_routes-none : get_routes config.json config.env none ≡ default_routes config.env
  unfolding get_routes
  get_routes-none = refl

  -- the routes that Redis calls for after a PUT and requests that leave them
  pub put-held :
      (redis : MemoryRedis) (put : Input) (rs : List Route) (between : List Input) (t : ℕ)
      → (respond redis put).1 ≡ updated rs
      → IsQuiet t between
      → get_routes config.json config.env (view (serve (respond redis put).0 between) t routes_key)
        ≡ (if ltb t (put.readings.routes_at + 3600 * 1000) then rs else default_routes config.env)
  put-held redis put rs between t done quiet =
      let held = serve-view t between (respond redis put).0 quiet ∙ written redis put rs t done in
      ap (get_routes config.json config.env) held
      ∙ elim (Bool-cases (ltb t (put.readings.routes_at + 3600 * 1000))) [
        | inl within ↦ rw within (get_routes-encode rs)
        | inr past ↦ rw past get_routes-none
      ]

  -- After a PUT that was answered as an update, and any requests that no super admin sends and that
  -- are not later than the list, a list of the routes answers with those of the update within the
  -- hour, and with the default ones from then on.
  pub put-list :
      (redis : MemoryRedis) (put list : Input) (rs rs' : List Route) (between : List Input)
      → (respond redis put).1 ≡ updated rs
      → IsQuiet list.readings.routes_at between
      → (respond (serve (respond redis put).0 between) list).1 ≡ routes rs'
      → rs' ≡ (
          if ltb list.readings.routes_at (put.readings.routes_at + 3600 * 1000)
          then rs
          else default_routes config.env)
  put-list redis put list rs rs' between done quiet answered =
      listed (serve (respond redis put).0 between) list rs' answered
      ∙ put-held redis put rs between list.readings.routes_at done quiet
