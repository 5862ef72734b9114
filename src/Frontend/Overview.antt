-- ===== src/Frontend/Overview.antt =====
-- The figures of frontend/src/components/KpiStrip.jsx, the graph of
-- frontend/src/components/ServiceGraph.jsx and the selection of frontend/src/pages/HealthMap.jsx.
-- The average is kept as a sum and a count.
pub mod Order
pub mod Graph
use aiself_healer.Common.{
  ℕ, ◌+◌, ◌*◌, String, Bool, not, Option, none, some, List, [], ◌∷◌, ◌++◌, ◌==◌, ◌<>◌, map, keep,
  find, length, leb, ltb, nat_eq, if◌then◌else◌,
}
use aiself_healer.Frontend.Snapshot.{Service}
use aiself_healer.Frontend.Shape.{Edge, Snapshot}

pub data Tone : Type 0 where
  ok warn : Tone

-- `services.reduce((sum, service) => sum + service.field, 0)`
unfoldable pub sum_from : (Service ℕ → ℕ) → ℕ → List (Service ℕ) → ℕ
sum_from field sum [] = sum
sum_from field sum (s ∷ services) = sum_from field (sum + field s) services

abbrev pub total : (Service ℕ → ℕ) → List (Service ℕ) → ℕ
total field services = sum_from field 0 services

pub record Kpis : Type 0 where
  -- the sum of the scores, and the number of services, 0 for an average of 0
  pub average_health : ℕ × ℕ
  pub health_tone : Tone
  pub degraded : ℕ
  pub degraded_tone : Tone
  pub throughput : ℕ
  pub replicas : ℕ

unfoldable pub kpis : List (Service ℕ) → Kpis
kpis services =
    let degraded = length (keep (λ s. not (s.status == "healthy")) services) in
    let health = total (λ s. s.health_score) services in
    let count = length services in
    record {
      average_health = (health, count);
      health_tone = if ltb (90 * count) health then ok else warn;
      degraded = degraded;
      degraded_tone = if nat_eq degraded 0 then ok else warn;
      throughput = total (λ s. s.throughput_rps) services;
      replicas = total (λ s. s.replicas) services;
    }

pub data Color : Type 0 where
  green amber red : Color

abbrev pub color_for : ℕ → Color
color_for score = if leb 90 score then green else if leb 75 score then amber else red

-- An element of the graph: a node with its id, label and score, or an edge with its id, ends and
-- traffic.
pub data Element : Type 0 where
  node : String → String → ℕ → Element
  link : String → String → String → ℕ → Element

-- a node's label is its name, with the score on the next line
unfoldable pub elements : List (Service ℕ) → List Edge → List Element
elements services edges =
    map (λ s. node s.id s.name s.health_score) services
    ++ map (λ e. link (e.source <> ("-" <> e.target)) e.source e.target e.traffic) edges

-- the nodes among the elements
abbrev pub node_ids : List Element → List String
node_ids [] = []
node_ids (node id name score ∷ rest) = id ∷ node_ids rest
node_ids (link id source target traffic ∷ rest) = node_ids rest

abbrev pub first_service : List (Service ℕ) → Option (Service ℕ)
first_service [] = none
first_service (s ∷ services) = some s

abbrev pub id_of : Option (Service ℕ) → Option String
id_of none = none
id_of (some s) = some s.id

-- the state when the page is opened
abbrev pub selected_first : Snapshot → Option String
selected_first snapshot = id_of (first_service snapshot.services)

abbrev pub is_selected : Option String → Service ℕ → Bool
is_selected none s = Bool.false
is_selected (some id) s = s.id == id

abbrev pub found_or : Option (Service ℕ) → Option (Service ℕ) → Option (Service ℕ)
found_or none d = d
found_or (some s) d = some s

-- `services.find((item) => item.id === selected) || services[0]`
unfoldable pub shown_service : Snapshot → Option String → Option (Service ℕ)
shown_service snapshot selected =
    found_or (find (is_selected selected) snapshot.services) (first_service snapshot.services)
