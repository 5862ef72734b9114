-- ===== src/Tests/PipelineRuns.antt =====
-- The gateway's limiter, proxies and restarts at a few requests.
use aiself_healer.Common.{
  ℕ, ◌+◌, ◌*◌, ◌≤◌, arith, String, Option, ◌≢◌, eq_iff, none, some, List, [], ◌∷◌, ◌≡◌, refl, ltb,
  if◌then◌else◌, after_prefix,
}
use aiself_healer.JsMap
use aiself_healer.Gateway.MemoryRedis.{init}
use aiself_healer.Gateway.RateLimit.Window.{IsOrdered}
use aiself_healer.Gateway.Auth.{require_jwt, is_public_route, extract_token, accept, check_token}
use aiself_healer.Gateway.Routing.{default_routes, proxy_req}
use aiself_healer.Gateway.Server.{Config}
use aiself_healer.Gateway.Server.Listing.{Input, respond, serve}
use aiself_healer.Gateway.Server.Throttle.{call_of, calls_of, served, passed, passed-le-limit}
use aiself_healer.Gateway.Server.Routed.{IsRouted, handle-IsRouted}
use aiself_healer.Gateway.Startup.{create_app, exchange}
use aiself_healer.Gateway.Startup.Restart.{put-create_app}
use aiself_healer.Gateway.RateLimit.Spacing.{IsSpaced}
use aiself_healer.Gateway.SocketHub.{synthetic_snapshot}
use aiself_healer.Gateway.Server.{Reply, status_of}
use aiself_healer.Frontend.Shape.{Snapshot}
use aiself_healer.Frontend.Api.{
  answered, Settled, resolved, rejected, get_snapshot, data_or, fallback_snapshot,
}
use aiself_healer.Platform.Chaos.{is_ok}
use aiself_healer.Platform.Polls.{snapshot_path, poll-shown}
use aiself_healer.Tests.RoutingRuns.{
  config, proxying, readings, asks, one_route, puts, reads_x, operator, done, handed_on,
}

-- A limit of one call a minute.
abbrev strict : Config
strict = record config { per_minute = some 1 }

abbrev asked_at : ℕ → Input
asked_at t = record { readings = readings t; request = asks "GET" "op"; body = none }

abbrev requests : List Input
requests = asked_at 4000 ∷ asked_at 2000 ∷ []

requests-IsOrdered : IsOrdered (calls_of strict requests)
unfolding call_of require_jwt is_public_route extract_token accept check_token after_prefix
    JsMap.get
requests-IsOrdered = omega arith

passed-le-limit_example : passed strict 1000 "op" requests ≤ 1
passed-le-limit_example = passed-le-limit strict 1000 "op" requests requests-IsOrdered

abbrev passing : Input
passing = record { readings = readings 1000; request = reads_x; body = none }

handle-IsRouted_example :
    IsRouted proxying none (accept reads_x operator) "http://x" "/"
    × ("r"
        ≡ (exchange proxying
            (record { redis = init; requests = []; latency = [] })
            passing
            200
            "/").1.request_id)
    × (JsMap.get "x-request-id" (proxy_req "r" (some operator) []) ≡ some "r")
unfolding accept
handle-IsRouted_example =
    handle-IsRouted proxying none init passing (accept reads_x operator) "http://x" "/" "r" [] refl
      handed_on

put-create_app_example :
    (create_app config (serve config (respond config init puts).0 []) 9000).0.attached
    ≡ (if ltb 9000 (1000 + 3600 * 1000) then one_route else default_routes config.env)
put-create_app_example = put-create_app config init puts one_route [] 9000 done tt

abbrev poll_at : ℕ → Input
poll_at t = record {
  readings = readings t;
  request = record {
    method = "GET";
    path = snapshot_path;
    ip = some "10.0.0.1";
    headers = [];
    access_token = none;
    user = none;
  };
  body = none;
}

abbrev earlier : List Input
earlier = asked_at 14000 ∷ poll_at 10000 ∷ []

polls-IsOrdered : IsOrdered (calls_of config (poll_at 20000 ∷ earlier))
unfolding call_of require_jwt is_public_route extract_token accept check_token after_prefix
    JsMap.get
polls-IsOrdered = omega arith

apart : ◌≢◌ {A = String} "op" "10.0.0.1"
apart e = ground (arith, e, eq_iff "op" "10.0.0.1")

polls-IsSpaced : IsSpaced "10.0.0.1" 10000 (calls_of config (poll_at 20000 ∷ earlier))
unfolding call_of require_jwt is_public_route extract_token accept check_token after_prefix
    JsMap.get
polls-IsSpaced = (
  λ own. (λ other. absurd (apart other), (λ same. omega arith, tt)),
  (λ other. absurd (apart other), (λ own. tt, tt)),
)

abbrev latest_resolved : List (Settled Snapshot) → Option Snapshot
latest_resolved [] = none
latest_resolved (resolved s ∷ polls) = some s
latest_resolved (rejected ∷ polls) = latest_resolved polls

poll-shown_example :
    let reply = (respond config (served config earlier) (poll_at 20000)).1 in
    let shown = synthetic_snapshot "a" "b" "c" in
    let fallback = fallback_snapshot "x" "y" "z" in
    let result = get_snapshot fallback (answered (is_ok (status_of reply 0)) (some shown)) in
    (reply ≡ Reply.snapshot) × (data_or fallback (latest_resolved (result ∷ rejected ∷ [])) ≡ shown)
poll-shown_example =
    poll-shown config earlier (poll_at 20000) 0 "a" "b" "c" (fallback_snapshot "x" "y" "z")
      latest_resolved (rejected ∷ []) (λ s rest. refl) (omega arith) refl
      (record { not_health = refl; not_ready = refl; not_metrics = refl; own = refl })
      polls-IsOrdered polls-IsSpaced
