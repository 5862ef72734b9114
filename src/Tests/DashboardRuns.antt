-- ===== src/Tests/DashboardRuns.antt =====
-- The dashboard's polls, tables and figures at a few values.
use aiself_healer.Common.{true, Option, none, some, List, [], ◌∷◌, ◌≡◌, refl, map}
use aiself_healer.Frontend.Shape.{Snapshot}
use aiself_healer.Frontend.Api.{
  Fetched, thrown, answered, Settled, resolved, rejected, get_snapshot, data_or, fallback_snapshot,
}
use aiself_healer.Frontend.Api.Shown.{latest, get_snapshot-latest}

-- A query that keeps the last result that was resolved.
query : List (Settled Snapshot) → Option Snapshot
query [] = none
query (resolved s ∷ polls) = some s
query (rejected ∷ polls) = query polls

abbrev fallback : Snapshot
fallback = fallback_snapshot "now" "earlier" "before"

abbrev polls : List (Fetched Snapshot)
polls =
    answered true none
    ∷ answered true (some (record fallback { generated_at = "noon" }))
    ∷ thrown
    ∷ []

get_snapshot-latest_example :
    data_or fallback (query (map (get_snapshot fallback) polls)) ≡ latest fallback polls
unfolding query
get_snapshot-latest_example =
    get_snapshot-latest query refl (λ s rest. refl) (λ rest. refl) fallback polls
