-- ===== src/Platform/Chaos.antt =====
-- The dashboard's chaos buttons at the gateway: the page sends no token.
use aiself_healer.Common.{
  ℕ, String, Bool, false, ◌&&◌, Option, none, some, List, ◌≡◌, ◌∙◌, refl, ap, arith, leb, ltb,
  truthy, after_prefix,
}
use aiself_healer.JsMap
use aiself_healer.Frontend.Session.{ChaosFetch, chaos_fetch}
use aiself_healer.Gateway.MemoryRedis.{MemoryRedis}
use aiself_healer.Gateway.Auth.{Request, missing_token, header, is_public_route, extract_token}
use aiself_healer.Gateway.Auth.Tokens.{require_jwt_without}
use aiself_healer.Gateway.Routing.{Route}
use aiself_healer.Gateway.Server.{verify_at, Config, Readings, denied, handle, status_of}
use aiself_healer.Frontend.Api.{
  answered, ChaosRun, trigger_chaos, App, chaos_settled, dry_run_local,
}

-- `response.ok`
abbrev pub is_ok : ℕ → Bool
is_ok status = leb 200 status && ltb status 300

-- What the browser makes of a `fetch` at the gateway: it keeps the path, and has the header
-- "authorization" from the page alone; and it holds no cookie "access_token", which no service of
-- the repository sets.
pub record Arrives (fetch : ChaosFetch) (req : Request) : Type 0 where
  pub same_path : req.path ≡ fetch.path
  pub same_header : header "authorization" req ≡ JsMap.get "authorization" fetch.headers
  pub no_cookie : truthy req.access_token ≡ false

no_token :
    (experiment : String) (service_name : Option String) (req : Request)
    → Arrives (chaos_fetch experiment service_name) req
    → extract_token req ≡ none
unfolding extract_token chaos_fetch JsMap.get
no_token experiment service_name req a =
    let none_sent : header "authorization" req ≡ none = a.same_header in
    ground (arith, none_sent, a.no_cookie)

chaos_fetch-closed :
    (experiment : String) (service_name : Option String)
    → is_public_route (chaos_fetch experiment service_name).path ≡ false
unfolding is_public_route after_prefix chaos_fetch
chaos_fetch-closed experiment service_name = refl

module _ (config : Config) (redis : MemoryRedis) (r : Readings) (req : Request)
    (body : Option (List Route)) (experiment : String) (service_name : Option String) where
  chaos-denied :
      Arrives (chaos_fetch experiment service_name) req
      → handle config redis r req body ≡ (redis, denied missing_token)
  unfolding handle
  chaos-denied a =
      let closed = ap is_public_route a.same_path ∙ chaos_fetch-closed experiment service_name in
      let refused =
        require_jwt_without (verify_at config r) config.key req closed
          (rw (no_token experiment service_name req a) refl) in
      rw (refused, handle) refl

  -- The gateway refuses every request of the chaos buttons before it reaches the chaos service,
  -- in every setting, and the page then shows its own line of a local dry run: no answer of the
  -- chaos service is ever shown. The browser is to have no cookie of a token, and no header
  -- "authorization" but from the page's `fetch`.
  pub chaos-dry_run_local :
      (app : App) (upstream : ℕ) (answer : Option ChaosRun)
      → Arrives (chaos_fetch experiment service_name) req
      → ((handle config redis r req body).0 ≡ redis)
        × (chaos_settled app (
              trigger_chaos
                (answered (is_ok (status_of (handle config redis r req body).1 upstream)) answer))
            ≡ record app { last_chaos = some dry_run_local })
  unfolding chaos_settled trigger_chaos status_of
  chaos-dry_run_local app upstream answer a = rw (chaos-denied a) (refl, refl)
