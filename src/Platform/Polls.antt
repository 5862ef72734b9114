-- ===== src/Platform/Polls.antt =====
-- The dashboard's polls of the snapshot, at the gateway.
use aiself_healer.Common.{
  ℕ, ◌≤◌, String, true, false, Option, none, some, List, ◌∷◌, ◌≡◌, ◌∙◌, refl, ap, after_prefix,
  arith,
}
use aiself_healer.Gateway.MemoryRedis.{MemoryRedis}
use aiself_healer.Gateway.RateLimit.{identity, limit_of}
use aiself_healer.Gateway.RateLimit.Window.{IsOrdered}
use aiself_healer.Gateway.RateLimit.Spacing.{IsSpaced}
use aiself_healer.Gateway.Auth.{Request, next, require_jwt, is_public_route}
use aiself_healer.Gateway.Routing.{Route, sub_of}
use aiself_healer.Gateway.Server.{verify_at, Config, Readings, Reply, dispatch, status_of}
use aiself_healer.Gateway.Server.Listing.{Input, respond}
use aiself_healer.Gateway.Server.Throttle.{calls_of, served, spaced-dispatch}
use aiself_healer.Gateway.SocketHub.{synthetic_snapshot}
use aiself_healer.Frontend.Shape.{Snapshot}
use aiself_healer.Frontend.Api.{answered, Settled, resolved, get_snapshot, query_options, data_or}
use aiself_healer.Platform.Chaos.{is_ok}

-- the path that `getSnapshot` asks for
abbrev pub snapshot_path : String
snapshot_path = "/api/v1/dashboard/snapshot"

-- The exact paths of Express: of the routes before it, none answers the snapshot's path.
pub record AnswersSnapshot (config : Config) (method : String) : Type 0 where
  pub not_health : config.answers "GET" "/health" method snapshot_path ≡ false
  pub not_ready : config.answers "GET" "/ready" method snapshot_path ≡ false
  pub not_metrics : config.answers "GET" "/metrics" method snapshot_path ≡ false
  pub own : config.answers "GET" snapshot_path method snapshot_path ≡ true

snapshot-open : is_public_route snapshot_path ≡ true
unfolding is_public_route after_prefix
snapshot-open = refl

module _ (config : Config) where
  dispatch-snapshot :
      (redis : MemoryRedis) (r : Readings) (id : String) (req : Request)
      (body : Option (List Route))
      → req.path ≡ snapshot_path
      → AnswersSnapshot config req.method
      → (dispatch config redis r id req body).1 ≡ Reply.snapshot
  unfolding dispatch
  dispatch-snapshot redis r id req body asked a =
      rw (asked, a.not_health, a.not_ready, a.not_metrics, a.own) refl

  let_in :
      (r : Readings) (req : Request)
      → req.path ≡ snapshot_path
      → require_jwt (verify_at config r) config.key req ≡ next req
  unfolding require_jwt
  let_in r req asked = rw (ap is_public_route asked ∙ snapshot-open) refl

  -- The polls of a dashboard that is alone at its address, at the interval of the source or more
  -- apart, are always answered with the snapshot, whoever else calls the gateway, if its limit is of
  -- six calls a minute or more; and the dashboard shows that snapshot, whatever it showed before.
  pub poll-shown :
      (cs : List Input) (c : Input) (upstream : ℕ) (generated anomaly_time healing_time : String)
      (fallback : Snapshot) (query : List (Settled Snapshot) → Option Snapshot)
      (polls : List (Settled Snapshot))
      → ((s : Snapshot) (earlier : List (Settled Snapshot)) → query (resolved s ∷ earlier) ≡ some s)
      → 6 ≤ limit_of none config.per_minute
      → c.request.path ≡ snapshot_path
      → AnswersSnapshot config c.request.method
      → IsOrdered (calls_of config (c ∷ cs))
      → IsSpaced
          (identity (sub_of c.request.user) c.request.ip)
          query_options.refetch_interval
          (calls_of config (c ∷ cs))
      → (let reply = (respond config (served config cs) c).1 in
          let shown = synthetic_snapshot generated anomaly_time healing_time in
          let result =
            get_snapshot fallback (answered (is_ok (status_of reply upstream)) (some shown)) in
          (reply ≡ Reply.snapshot) × (data_or fallback (query (result ∷ polls)) ≡ shown))
  unfolding get_snapshot status_of
  poll-shown cs c upstream generated anomaly_time healing_time fallback query polls keeps enough
        asked a o s =
      let shown = synthetic_snapshot generated anomaly_time healing_time in
      let (redis, through) =
        spaced-dispatch config cs c c.request query_options.refetch_interval (omega arith)
          (omega arith) (let_in c.readings c.request asked) o s in
      let reply = through ∙ dispatch-snapshot redis c.readings _ c.request c.body asked a in
      (reply, rw reply (ap (data_or fallback) (keeps shown polls)))
