-- ===== src/Frontend/View/Tables.antt =====
-- frontend/src/components/EventTable.jsx, and the pages AnomalyFeed, HealingLog and ScalingHistory
-- that it is on. How a time prints in the browser is an argument,
-- and so is the clock as each row is drawn.
use aiself_healer.Common.{ℕ, suc, String, Option, none, some, List, [], ◌∷◌, map, length}
use aiself_healer.JsMap
use aiself_healer.Frontend.Shape.{Field, whole, Row, Event, Snapshot, or_field}
use aiself_healer.Frontend.Rows.{
  Cell, cell, score_cell, action_cell, replicas_cell, recovery_cell, accuracy_cell, feed_rows,
  scaling_rows, key_of,
}
use aiself_healer.Frontend.Markup as Markup
use aiself_healer.Frontend.Markup.{Node, words, el, nodes, classed, str, num, field_key}
use aiself_healer.Frontend.View.Charts.{scaling_chart}

pub record Column : Type 0 where
  pub key : String
  pub label : String
  pub render : Option (Row → Cell)

abbrev pub plain_column : String → String → Column
plain_column key label = record { key = key; label = label; render = none }

abbrev pub rendered : String → String → (Row → Cell) → Column
rendered key label render = record { key = key; label = label; render = some render }

-- `column.render ? column.render(row) : row[column.key]`
abbrev pub content : Row → Column → Cell
content row column = elim column.render [
  | none ↦ cell (JsMap.get column.key row)
  | some render ↦ render row
]

abbrev pub head_cell : Column → Node
head_cell column =
    el "th"
      (("key", str column.key)
        ∷ ("className", str "border-b border-line px-4 py-3 font-semibold")
        ∷ [])
      (nodes (words column.label ∷ []))

abbrev pub body_cell : Row → Column → Node
body_cell row column =
    el "td" (("key", str column.key) ∷ ("className", str "px-4 py-3 text-slate-700") ∷ [])
      (nodes (Markup.cell (content row column) ∷ []))

abbrev pub body_row : List Column → ℕ → Row → Node
body_row columns index row =
    el "tr"
      (("key", field_key (key_of index row))
        ∷ ("className", str "border-b border-line last:border-0")
        ∷ [])
      (nodes (map (body_cell row) columns))

-- `rows.map((row, index) => …)`, from an index on
unfoldable pub body_rows : List Column → ℕ → List Row → List Node
body_rows columns index [] = []
body_rows columns index (row ∷ rows) =
    body_row columns index row ∷ body_rows columns (suc index) rows

abbrev pub empty_row : List Column → String → Node
empty_row columns empty = el "tr" [] (
    nodes (
      el "td"
        (("className", str "px-4 py-6 text-slate-500") ∷ ("colSpan", num (length columns)) ∷ [])
        (nodes (words empty ∷ []))
      ∷ []))

-- `rows.length === 0 ? … : …`
unfoldable pub table_body : List Row → List Column → String → List Node
table_body [] columns empty = empty_row columns empty ∷ []
table_body (row ∷ rows) columns empty = body_rows columns 0 (row ∷ rows)

unfoldable pub event_table : List Row → List Column → String → Node
event_table rows columns empty = classed "div" "panel overflow-hidden" (
    classed "div" "overflow-x-auto" (
      classed "table" "w-full min-w-[720px] border-collapse text-left text-sm" (
        classed "thead" "bg-slate-100 text-xs uppercase text-slate-500"
          (el "tr" [] (nodes (map head_cell columns)) ∷ [])
        ∷ el "tbody" [] (nodes (table_body rows columns empty))
        ∷ [])
      ∷ [])
    ∷ [])

-- the text of an empty table where a page gives none
abbrev pub no_events : String
no_events = "No events"

module _ (local_time : Option Field → String) (now : Row → ℕ) where
  -- `new Date(row.timestamp || Date.now()).toLocaleTimeString()`
  abbrev pub time_cell : Row → Cell
  time_cell row = cell (
      some
        (Field.text (local_time (or_field (JsMap.get "timestamp" row) (some (whole (now row)))))))

  abbrev pub anomaly_columns : List Column
  anomaly_columns =
      rendered "timestamp" "Time" time_cell
      ∷ plain_column "service_id" "Service"
      ∷ rendered "score" "Score" score_cell
      ∷ plain_column "anomaly_type" "Type"
      ∷ rendered "triggered_action" "Action" action_cell
      ∷ []

  abbrev pub healing_columns : List Column
  healing_columns =
      rendered "timestamp" "Time" time_cell
      ∷ plain_column "service_id" "Service"
      ∷ plain_column "action" "Action"
      ∷ plain_column "before" "Before"
      ∷ plain_column "after" "After"
      ∷ rendered "recovery_seconds" "Recovery" recovery_cell
      ∷ plain_column "model" "Model"
      ∷ []

  unfoldable pub anomaly_feed : List Event → Snapshot → Node
  anomaly_feed live snapshot =
      event_table (feed_rows live snapshot.anomalies) anomaly_columns no_events

  unfoldable pub healing_log : List Event → Snapshot → Node
  healing_log live snapshot =
      event_table (feed_rows live snapshot.healing) healing_columns no_events

abbrev pub scaling_columns : List Column
scaling_columns =
    plain_column "service_id" "Service"
    ∷ plain_column "predicted_rps" "Predicted RPS"
    ∷ plain_column "actual_rps" "Actual RPS"
    ∷ rendered "replicas" "Replicas" replicas_cell
    ∷ rendered "accuracy" "Accuracy" accuracy_cell
    ∷ []

unfoldable pub scaling_history : List Event → Snapshot → Node
scaling_history live snapshot =
    let rows = scaling_rows live snapshot.scaling in
    classed "div" "grid gap-4"
      (scaling_chart rows ∷ event_table rows scaling_columns no_events ∷ [])
