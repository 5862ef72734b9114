-- ===== src/Frontend/View/Offers.antt =====
-- What a user can do on the page.
use mathlib.Core.List.{append-nil}
use aiself_healer.Common.{
  ℕ, suc, String, Bool, true, false, Option, none, some, List, [], ◌∷◌, ◌++◌, ◌==◌, ◌≡◌, refl, ap,
  map, if◌then◌else◌,
}
use aiself_healer.Frontend.Realtime.{Slice, scaling}
use aiself_healer.Frontend.Snapshot.{Service}
use aiself_healer.Frontend.Shape.{Field, Row, Event, Edge, Snapshot}
use aiself_healer.Frontend.Overview.{id_of, shown_service}
use aiself_healer.Frontend.Overview.Graph.{node_ids-elements}
use aiself_healer.Frontend.Api.{ChaosRun, App}
use aiself_healer.Frontend.Markup.{
  Node, Action, nodes, when, optional_text, set_active, select, run_chaos, actions, actions_all,
}
use aiself_healer.Frontend.View.Strips.{tabs, header, kpi_strip}
use aiself_healer.Frontend.View.Charts.{
  metrics_explorer, latency_chart, error_rate_chart, scaling_chart,
}
use aiself_healer.Frontend.View.Map.{health_map, service_graph, optional_field, optional_figure}
use aiself_healer.Frontend.View.Tables.{
  Column, head_cell, body_cell, body_rows, table_body, event_table, anomaly_feed, healing_log,
  scaling_history,
}
use aiself_healer.Frontend.View.Page.{page_of, main_of, view, last_line}

head_cells-inert : (columns : List Column) → actions_all (nodes (map head_cell columns)) ≡ []
unfolding actions
head_cells-inert [] = refl
head_cells-inert (c ∷ columns) = head_cells-inert columns

body_cells-inert :
    (row : Row) (columns : List Column) → actions_all (nodes (map (body_cell row) columns)) ≡ []
unfolding actions
body_cells-inert row [] = refl
body_cells-inert row (c ∷ columns) = body_cells-inert row columns

body_rows-inert :
    (columns : List Column) (index : ℕ) (rows : List Row)
    → actions_all (nodes (body_rows columns index rows)) ≡ []
unfolding actions body_rows
body_rows-inert columns index [] = refl
body_rows-inert columns index (row ∷ rows) =
    rw (body_cells-inert row columns, body_rows-inert columns (suc index) rows) refl

table_body-inert :
    (rows : List Row) (columns : List Column) (empty : String)
    → actions_all (nodes (table_body rows columns empty)) ≡ []
unfolding actions table_body
table_body-inert [] columns empty = refl
table_body-inert (row ∷ rows) columns empty = body_rows-inert columns 0 (row ∷ rows)

event_table-inert :
    (rows : List Row) (columns : List Column) (empty : String)
    → actions (event_table rows columns empty) ≡ []
unfolding actions event_table
event_table-inert rows columns empty =
    rw (head_cells-inert columns, table_body-inert rows columns empty) refl

-- what the map's page offers: a tap on each service, and the two experiments on the one shown
abbrev pub map_actions : Snapshot → Option String → List Action
map_actions snapshot selected =
    let id = id_of (shown_service snapshot selected) in
    map select (map (λ s. s.id) snapshot.services)
    ++ run_chaos "pod_kill" id ∷ run_chaos "network_latency" id ∷ []

-- what the page of a tab offers
abbrev pub page_actions : String → Snapshot → Option String → List Action
page_actions active snapshot selected =
    if active == "map" then map_actions snapshot selected else []

abbrev pub tab_actions : List Action
tab_actions = map (λ t. set_active t.id) tabs

actions-service_graph :
    (ss : List (Service ℕ)) (edges : List Edge) (f : String → Action)
    → actions (service_graph ss edges f) ≡ map f (map (λ s. s.id) ss)
unfolding actions service_graph
actions-service_graph ss edges f = simp append-nil (ap (map f) (node_ids-elements ss edges))

optional_field-inert :
    (field : Service ℕ → String) (o : Option (Service ℕ))
    → actions_all (nodes (optional_field field o)) ≡ []
unfolding actions
optional_field-inert field none = refl
optional_field-inert field (some s) = refl

optional_figure-inert :
    (field : Service ℕ → ℕ) (o : Option (Service ℕ)) (rest : List Node)
    → actions_all (nodes (optional_figure field o rest)) ≡ actions_all (nodes rest)
unfolding actions
optional_figure-inert field none rest = refl
optional_figure-inert field (some s) rest = refl

actions-health_map :
    (snapshot : Snapshot) (selected : Option String)
    → actions (health_map snapshot selected) ≡ map_actions snapshot selected
unfolding actions health_map
actions-health_map snapshot selected =
    let s = shown_service snapshot selected in
    rw
      (
        actions-service_graph snapshot.services snapshot.edges (λ x. select x),
        optional_field-inert (λ s. s.name) s,
        optional_field-inert (λ s. s.status) s,
        optional_figure-inert (λ s. s.p99_latency_ms) s,
        optional_figure-inert (λ s. s.replicas) s [],
      )
      refl

actions-when :
    (b : Bool) (x : Node) (rest : List Node)
    → actions_all (nodes (when b x rest))
      ≡ (if b then actions x else []) ++ actions_all (nodes rest)
unfolding actions
actions-when true x rest = refl
actions-when false x rest = refl

optional_text-inert : (o : Option String) → actions_all (nodes (optional_text o)) ≡ []
unfolding actions
optional_text-inert none = refl
optional_text-inert (some t) = refl

last_line-inert :
    (run : Option ChaosRun) (rest : List Node)
    → actions_all (nodes (last_line run rest)) ≡ actions_all (nodes rest)
unfolding actions
last_line-inert none rest = refl
last_line-inert (some run) rest = rw (optional_text-inert run.result) refl

inert_when :
    (b : Bool) (x : Node) (rest : List Node)
    → actions x ≡ []
    → actions_all (nodes (when b x rest)) ≡ actions_all (nodes rest)
unfolding actions
inert_when true x rest h = rw h refl
inert_when false x rest h = refl

metrics_explorer-inert :
    (env : String → Option String) (snapshot : Snapshot)
    → actions (metrics_explorer env snapshot) ≡ []
unfolding actions metrics_explorer latency_chart error_rate_chart
metrics_explorer-inert env snapshot = refl

scaling_history-inert :
    (live : List Event) (snapshot : Snapshot) → actions (scaling_history live snapshot) ≡ []
unfolding actions scaling_history scaling_chart
scaling_history-inert live snapshot = rw event_table-inert refl

module _ (env : String → Option String) (local_time : Option Field → String) (now : Row → ℕ) where
  actions-page_of :
      (active : String) (live : Slice → List Event) (snapshot : Snapshot) (selected : Option String)
      → actions_all (nodes (page_of env local_time now active live snapshot selected))
        ≡ page_actions active snapshot selected
  unfolding actions page_of anomaly_feed healing_log
  actions-page_of active live snapshot selected =
      rw
        (
          actions-when (active == "map"),
          inert_when (active == "metrics") _ _ (metrics_explorer-inert env snapshot),
          inert_when (active == "anomalies") _ _ (event_table-inert _ _ _),
          inert_when (active == "healing") _ _ (event_table-inert _ _ _),
          inert_when (active == "scaling") _ _ (scaling_history-inert (live scaling) snapshot),
          actions-health_map,
          append-nil,
        )
        refl

  pub actions-view :
      (app : App) (connected : Bool) (live : Slice → List Event) (snapshot : Snapshot)
      (selected : Option String)
      → actions (view env local_time now app connected live snapshot selected)
        ≡ tab_actions ++ page_actions app.active snapshot selected
  unfolding actions view main_of header kpi_strip
  actions-view app connected live snapshot selected =
      simp (last_line-inert, actions-page_of, append-nil)
