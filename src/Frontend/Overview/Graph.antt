-- ===== src/Frontend/Overview/Graph.antt =====
-- The graph that frontend/src/components/ServiceGraph.jsx hands to the graph package, which takes no
-- edge between nodes that are not there and no two nodes of one id.
use aiself_healer.Common.{
  ℕ, String, Bool, true, ◌&&◌, not, Option, none, some, List, [], ◌∷◌, ◌==◌, ◌≡◌, refl, ap, arith,
  map, every, any,
}
use aiself_healer.Frontend.Snapshot.{
  HealthEvent, Service, Score, merge, with_score, oldest, merge-oldest,
}
use aiself_healer.Frontend.Shape.{Edge, Snapshot}
use aiself_healer.Frontend.Api.{fallback_snapshot}
use aiself_healer.Frontend.Overview.{Element, node, link, elements, node_ids}
use aiself_healer.Gateway.SocketHub.{
  synthetic_snapshot, services_from, synthetic_service, edges_from,
}

abbrev is_in : String → List String → Bool
is_in id ids = any (λ other. other == id) ids

abbrev all_distinct : List String → Bool
all_distinct [] = true
all_distinct (id ∷ ids) = let rest = all_distinct ids in not (is_in id ids) && rest

abbrev is_placed : List String → Element → Bool
is_placed ids (node id name score) = true
is_placed ids (link id source target traffic) = is_in source ids && is_in target ids

-- No two nodes have one id, and each link is between nodes.
abbrev pub is_graph : List Element → Bool
is_graph es = all_distinct (node_ids es) && every (is_placed (node_ids es)) es

-- the elements of a snapshot with other services
abbrev pub drawn : List (Service ℕ) → Snapshot → List Element
drawn services snapshot = elements services snapshot.edges

pub node_ids-elements :
    (services : List (Service ℕ)) (edges : List Edge)
    → node_ids (elements services edges) ≡ map (λ s. s.id) services
unfolding elements
node_ids-elements [] [] = refl
node_ids-elements [] (e ∷ edges) = node_ids-elements [] edges
node_ids-elements (s ∷ services) edges = ap (◌∷◌ s.id) (node_ids-elements services edges)

every_placed :
    (ids : List String) (services : List (Service ℕ)) (edges : List Edge)
    → every (is_placed ids) (elements services edges)
      ≡ every (λ e. is_in e.source ids && is_in e.target ids) edges
unfolding elements
every_placed ids [] [] = refl
every_placed ids [] (e ∷ edges) = ground (arith, every_placed ids [] edges)
every_placed ids (s ∷ services) edges = every_placed ids services edges

is_graph-elements :
    (services : List (Service ℕ)) (edges : List Edge)
    → is_graph (elements services edges) ≡ (
        let ids = map (λ s. s.id) services in
        all_distinct ids && every (λ e. is_in e.source ids && is_in e.target ids) edges)
is_graph-elements services edges =
    rw (node_ids-elements services edges, every_placed (map (λ s. s.id) services) services edges)
      refl

with_score-id : (o : Option (Option (Score ℕ))) (s : Service ℕ) → (with_score ℕ o s).id ≡ s.id
with_score-id none s = refl
with_score-id (some none) s = refl
with_score-id (some (some score)) s = refl

pub ids-merge :
    (events : List (HealthEvent ℕ)) (services : List (Service ℕ))
    → map (λ s. s.id) (merge ℕ events services) ≡ map (λ s. s.id) services
ids-merge events services = rw (merge-oldest ℕ events services) (same services)
  where
    same :
        (ss : List (Service ℕ))
        → map (λ s. s.id) (map (λ s. with_score ℕ (oldest ℕ s.id events) s) ss) ≡ map (λ s. s.id) ss
    same [] = refl
    same (s ∷ ss) = ground (arith, with_score-id (oldest ℕ s.id events) s, same ss)

synthetic_graph :
    (generated anomaly_time healing_time : String)
    → let s = synthetic_snapshot generated anomaly_time healing_time in
      is_graph (drawn s.services s) ≡ true
unfolding elements synthetic_snapshot services_from synthetic_service edges_from
synthetic_graph generated anomaly_time healing_time = refl

fallback_graph :
    (generated anomaly_time healing_time : String)
    → let s = fallback_snapshot generated anomaly_time healing_time in
      is_graph (drawn s.services s) ≡ true
unfolding elements fallback_snapshot
fallback_graph generated anomaly_time healing_time = refl
