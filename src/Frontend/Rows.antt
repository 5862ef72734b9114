-- ===== src/Frontend/Rows.antt =====
-- The tables of frontend/src/pages and frontend/src/components/EventTable.jsx. No column reads the
-- field `payload`, so a row is without it.
pub mod Laws
use aiself_healer.Common.{
  ℕ, String, Option, none, some, List, [], ◌∷◌, ◌++◌, map, take, if◌then◌else◌,
}
use aiself_healer.JsMap
use aiself_healer.Frontend.Shape.{
  Field, text, hundredths, Row, Event, truthy_field, or_field, coalesce,
}

-- `{ ...target, ...source }`
unfoldable pub spread : Row → Row → Row
spread target [] = target
spread target ((name, value) ∷ source) = spread (JsMap.set name value target) source

abbrev pub row_or_empty : Option Row → Row
row_or_empty none = []
row_or_empty (some row) = row

-- `{ ...event, ...event.payload }`
abbrev pub flatten : Event → Row
flatten event = spread event.fields (row_or_empty event.payload)

abbrev pub events_or_empty : Option (List Event) → List Event
events_or_empty none = []
events_or_empty (some events) = events

-- the most rows that a table has
abbrev pub most : ℕ
most = 100

-- the rows of AnomalyFeed and of HealingLog: the live events, then those of the snapshot
unfoldable pub feed_rows : List Event → Option (List Event) → List Row
feed_rows live held = map flatten (take most (live ++ events_or_empty held))

-- the rows of ScalingHistory, where only the live events are flattened
unfoldable pub scaling_rows : List Event → Option (List Event) → List Row
scaling_rows live held =
    take most (map flatten live ++ map (λ event. event.fields) (events_or_empty held))

-- What a cell shows: nothing, a field, a number of seconds, or a rounded percentage.
pub data Cell : Type 0 where
  blank : Cell
  shows : Field → Cell
  seconds : Field → Cell
  percent : Field → Cell

abbrev pub cell : Option Field → Cell
cell none = blank
cell (some field) = shows field

abbrev pub score_cell : Row → Cell
score_cell row = cell (
    coalesce (JsMap.get "score" row)
      (coalesce (JsMap.get "lstm_probability" row) (JsMap.get "isolation_score" row)))

abbrev pub action_cell : Row → Cell
action_cell row =
    cell (or_field (JsMap.get "triggered_action" row) (JsMap.get "recommended_action" row))

abbrev pub replicas_cell : Row → Cell
replicas_cell row = cell (
    or_field (JsMap.get "replicas" row)
      (or_field (JsMap.get "recommended_replicas" row) (JsMap.get "applied_replicas" row)))

abbrev pub recovery_cell : Row → Cell
recovery_cell row = elim (JsMap.get "recovery_seconds" row) [
  | none ↦ blank
  | some field ↦ if truthy_field (some field) then seconds field else blank
]

-- ``row.field ? `${Math.round(row.field * 100)}%` : otherwise``
abbrev pub percent_or : Option Field → Cell → Cell
percent_or field otherwise = elim field [
  | none ↦ otherwise
  | some f ↦ if truthy_field (some f) then percent f else otherwise
]

abbrev pub accuracy_cell : Row → Cell
accuracy_cell row =
    percent_or (JsMap.get "accuracy" row) (percent_or (JsMap.get "confidence" row) blank)

-- `row.event_id || row.id || index`
abbrev pub key_of : ℕ → Row → Option Field
key_of index row =
    or_field (JsMap.get "event_id" row) (or_field (JsMap.get "id" row) (some (Field.whole index)))
