-- ===== src/Frontend/View/Page.antt =====
-- The page of frontend/src/App.jsx: the header, the figures, the line on the last experiment, and the
-- page of the active tab.
use aiself_healer.Common.{ℕ, String, Bool, Option, none, some, List, [], ◌∷◌, ◌<>◌, ◌==◌}
use aiself_healer.Frontend.Realtime.{Slice, anomalies, healing, scaling}
use aiself_healer.Frontend.Shape.{Field, Row, Event, Snapshot}
use aiself_healer.Frontend.Api.{ChaosRun, App, chaos_line}
use aiself_healer.Frontend.Markup.{Node, words, classed, when, optional_text}
use aiself_healer.Frontend.View.Strips.{header, kpi_strip}
use aiself_healer.Frontend.View.Charts.{metrics_explorer}
use aiself_healer.Frontend.View.Map.{health_map}
use aiself_healer.Frontend.View.Tables.{anomaly_feed, healing_log, scaling_history}

abbrev pub last_line : Option ChaosRun → List Node → List Node
last_line none rest = rest
last_line (some run) rest =
    let (experiment, service, result) = chaos_line run in
    classed "div" "panel flex items-center justify-between gap-3 p-3 text-sm" (
      classed "span" "font-medium text-ink" (words (experiment <> (" · " <> service)) ∷ [])
      ∷ classed "span" "text-slate-600" (optional_text result)
      ∷ [])
    ∷ rest

-- The environment of the build, and the browser's times.
module _ (env : String → Option String) (local_time : Option Field → String) (now : Row → ℕ) where
  -- the pages, of which each is drawn where its tab is active
  unfoldable pub page_of : String → (Slice → List Event) → Snapshot → Option String → List Node
  page_of active live snapshot selected = when (active == "map") (health_map snapshot selected) (
      when (active == "metrics") (metrics_explorer env snapshot) (
        when (active == "anomalies") (anomaly_feed local_time now (live anomalies) snapshot) (
          when (active == "healing") (healing_log local_time now (live healing) snapshot)
            (when (active == "scaling") (scaling_history (live scaling) snapshot) []))))

  unfoldable pub main_of : App → (Slice → List Event) → Snapshot → Option String → List Node
  main_of app live snapshot selected =
      kpi_strip snapshot.services
      ∷ last_line app.last_chaos (page_of app.active live snapshot selected)

  unfoldable pub view : App → Bool → (Slice → List Event) → Snapshot → Option String → Node
  view app connected live snapshot selected = classed "div" "min-h-screen bg-[#f5f7fb]" (
      header connected app.active
      ∷ classed "main" "mx-auto grid max-w-7xl gap-4 px-4 py-5" (main_of app live snapshot selected)
      ∷ [])
