-- ===== src/Gateway/Startup/Restart.antt =====
-- A write of the routes, and the gateways that are started after it on the same Redis.
use aiself_healer.Common.{ℕ, ◌+◌, ◌*◌, List, ◌≡◌, ◌∙◌, ap, ltb, if◌then◌else◌}
use aiself_healer.Gateway.MemoryRedis.{MemoryRedis}
use aiself_healer.Gateway.MemoryRedis.View.{get-view}
use aiself_healer.Gateway.Routing.{Route, get_routes, default_routes}
use aiself_healer.Gateway.Server.{Config, updated}
use aiself_healer.Gateway.Server.Table.{routes_key}
use aiself_healer.Gateway.Server.Listing.{Input, respond, serve, IsQuiet, put-held}
use aiself_healer.Gateway.Startup.{create_app}

-- After a PUT that was answered as an update, and any requests that no super admin sends, a gateway
-- that is started on the same Redis attaches the routes of the update within the hour, and the
-- default ones from then on.
pub put-create_app :
    (config : Config) (redis : MemoryRedis) (put : Input) (rs : List Route) (between : List Input)
    (now : ℕ)
    → (respond config redis put).1 ≡ updated rs
    → IsQuiet config now between
    → (create_app config (serve config (respond config redis put).0 between) now).0.attached
      ≡ (if ltb now (put.readings.routes_at + 3600 * 1000) then rs else default_routes config.env)
unfolding create_app
put-create_app config redis put rs between now done quiet =
    let left = serve config (respond config redis put).0 between in
    ap (get_routes config.json config.env) (get-view left now routes_key).0
    ∙ put-held config redis put rs between now done quiet
