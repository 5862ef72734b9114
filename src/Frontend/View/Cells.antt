-- ===== src/Frontend/View/Cells.antt =====
-- How many rows and cells the tables have.
use aiself_healer.Common.{
  ℕ, zero, suc, ◌+◌, ◌*◌, max, min, String, Option, List, [], ◌∷◌, ◌++◌, ◌≡◌, ◌∙◌, refl, ap, arith,
  map, length, length-append, take,
}
use aiself_healer.Frontend.Realtime.{anomalies, Message, after, events_of, shown, after-take}
use aiself_healer.Frontend.Shape.{Field, Row, Event, Snapshot}
use aiself_healer.Frontend.Rows.{feed_rows, flatten, events_or_empty, most}
use aiself_healer.Frontend.Markup.{nodes, count, count_all}
use aiself_healer.Frontend.View.Tables.{
  Column, head_cell, body_cell, body_rows, table_body, event_table, anomaly_feed, anomaly_columns,
  no_events,
}

heads-th : (columns : List Column) → count_all "th" (nodes (map head_cell columns)) ≡ length columns
unfolding count
heads-th [] = refl
heads-th (c ∷ columns) = omega (arith, heads-th columns)

heads-td : (columns : List Column) → count_all "td" (nodes (map head_cell columns)) ≡ 0
unfolding count
heads-td [] = refl
heads-td (c ∷ columns) = omega (arith, heads-td columns)

heads-tr : (columns : List Column) → count_all "tr" (nodes (map head_cell columns)) ≡ 0
unfolding count
heads-tr [] = refl
heads-tr (c ∷ columns) = omega (arith, heads-tr columns)

cells-td :
    (row : Row) (columns : List Column)
    → count_all "td" (nodes (map (body_cell row) columns)) ≡ length columns
unfolding count
cells-td row [] = refl
cells-td row (c ∷ columns) = omega (arith, cells-td row columns)

cells-tr :
    (row : Row) (columns : List Column) → count_all "tr" (nodes (map (body_cell row) columns)) ≡ 0
unfolding count
cells-tr row [] = refl
cells-tr row (c ∷ columns) = omega (arith, cells-tr row columns)

rows-td :
    (columns : List Column) (index : ℕ) (rows : List Row)
    → count_all "td" (nodes (body_rows columns index rows)) ≡ length rows * length columns
unfolding count body_rows
rows-td columns index [] = grind arith
rows-td columns index (row ∷ rows) =
    grind (arith, cells-td row columns, rows-td columns (suc index) rows)

rows-tr :
    (columns : List Column) (index : ℕ) (rows : List Row)
    → count_all "tr" (nodes (body_rows columns index rows)) ≡ length rows
unfolding count body_rows
rows-tr columns index [] = refl
rows-tr columns index (row ∷ rows) =
    omega (arith, cells-tr row columns, rows-tr columns (suc index) rows)

-- the rows of a table, the one of an empty table included
abbrev pub rows_shown : List Row → ℕ
rows_shown rows = max 1 (length rows)

abbrev pub cells_shown : List Row → List Column → ℕ
cells_shown [] columns = 1
cells_shown (row ∷ rows) columns = length (row ∷ rows) * length columns

event_table-count :
    (rows : List Row) (columns : List Column) (empty : String)
    → (count "tr" (event_table rows columns empty) ≡ 1 + rows_shown rows)
      × (count "td" (event_table rows columns empty) ≡ cells_shown rows columns)
unfolding count event_table table_body
event_table-count [] columns empty =
    (omega (arith, heads-tr columns), omega (arith, heads-td columns))
event_table-count (row ∷ rows) columns empty = (
  omega (arith, heads-tr columns, rows-tr columns 0 (row ∷ rows)),
  omega (arith, heads-td columns, rows-td columns 0 (row ∷ rows)),
)

length-map : (f : Event → Row) (xs : List Event) → length (map f xs) ≡ length xs
length-map f [] = refl
length-map f (x ∷ xs) = ap suc (length-map f xs)

length-take : (n : ℕ) (xs : List Event) → length (take n xs) ≡ min n (length xs)
length-take zero xs = omega arith
length-take (suc n) [] = omega arith
length-take (suc n) (x ∷ xs) = omega (arith, length-take n xs)

cells_shown-five :
    (rows : List Row) (columns : List Column)
    → length columns ≡ 5
    → cells_shown rows columns ≡ max 1 (length rows * 5)
cells_shown-five [] columns five = refl
cells_shown-five (row ∷ rows) columns five = rw five (omega arith)

module _ (local_time : Option Field → String) (now : Row → ℕ) where
  -- After any messages the table of anomalies has, beside its heading, as many rows as the dashboard
  -- received anomalies and the snapshot holds, up to a hundred, each of five cells, or one row of one
  -- cell where there are none.
  pub anomaly_feed-count :
      (ms : List (Message Event)) (snapshot : Snapshot)
      → (let page = anomaly_feed local_time now ((after Event ms).slices anomalies) snapshot in
          let received = length (events_of Event anomalies ms) in
          let held = length (events_or_empty snapshot.anomalies) in
          let rows = min most (received + held) in
          (count "tr" page ≡ 1 + max 1 rows) × (count "td" page ≡ max 1 (rows * 5)))
  unfolding anomaly_feed feed_rows
  anomaly_feed-count ms snapshot =
      let live = (after Event ms).slices anomalies in
      let all = live ++ events_or_empty snapshot.anomalies in
      let rows = map flatten (take most all) in
      let kept : length live ≡ min shown (length (events_of Event anomalies ms)) =
        ap length ((after-take Event ms).0 anomalies)
        ∙ length-take shown (events_of Event anomalies ms) in
      let size : length rows
          ≡ min most (
              length (events_of Event anomalies ms) + length (events_or_empty snapshot.anomalies)) =
        length-map flatten (take most all)
        ∙ length-take most all
        ∙ omega (arith, length-append live (events_or_empty snapshot.anomalies), kept) in
      let (trs, tds) = event_table-count rows (anomaly_columns local_time now) no_events in
      let five = cells_shown-five rows (anomaly_columns local_time now) refl in
      (omega (arith, trs, size), omega (arith, tds, five, size))
