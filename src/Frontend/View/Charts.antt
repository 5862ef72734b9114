-- ===== src/Frontend/View/Charts.antt =====
-- frontend/src/components/MetricCharts.jsx and frontend/src/pages/MetricsExplorer.jsx: what the
-- chart package is given.
use aiself_healer.Common.{ℕ, String, Option, List, [], ◌∷◌, map, text_or}
use aiself_healer.JsMap
use aiself_healer.Frontend.Snapshot.{Service}
use aiself_healer.Frontend.Shape.{Field, Row, Snapshot}
use aiself_healer.Frontend.Markup.{
  Node, words, el, nodes, classed, str, num, literal, services, rows,
}

abbrev grid : Node
grid =
    el "CartesianGrid" (("strokeDasharray", str "3 3") ∷ ("stroke", str "#e5e7eb") ∷ []) (nodes [])

abbrev name_axis : Node
name_axis =
    el "XAxis"
      (("dataKey", str "name")
        ∷ ("tick", literal "{\"fontSize\":11}")
        ∷ ("interval", num 0)
        ∷ ("angle", literal "-25")
        ∷ ("textAnchor", str "end")
        ∷ ("height", num 72)
        ∷ [])
      (nodes [])

abbrev bare : String → Node
bare tag = el tag [] (nodes [])

-- a panel with a title and a chart of some height
abbrev panel : String → String → Node → Node
panel title height chart = classed "div" "panel p-4" (
    classed "h2" "text-base font-semibold text-ink" (words title ∷ [])
    ∷ classed "div" height (el "ResponsiveContainer" [] (nodes (chart ∷ [])) ∷ [])
    ∷ [])

unfoldable pub latency_chart : List (Service ℕ) → Node
latency_chart ss = panel "P99 Latency" "mt-4 h-72" (
    el "BarChart" (("data", services ss) ∷ []) (
      nodes (
        grid
        ∷ name_axis
        ∷ bare "YAxis"
        ∷ bare "Tooltip"
        ∷ el "Bar"
            (("dataKey", str "p99_latency_ms")
              ∷ ("fill", str "#0f766e")
              ∷ ("radius", literal "[4,4,0,0]")
              ∷ [])
            (nodes [])
        ∷ [])))

unfoldable pub error_rate_chart : List (Service ℕ) → Node
error_rate_chart ss = panel "Error Rate" "mt-4 h-72" (
    el "AreaChart" (("data", services ss) ∷ []) (
      nodes (
        grid
        ∷ name_axis
        ∷ bare "YAxis"
        ∷ bare "Tooltip"
        ∷ el "Area"
            (("type", str "monotone")
              ∷ ("dataKey", str "error_rate")
              ∷ ("stroke", str "#b91c1c")
              ∷ ("fill", str "#fecaca")
              ∷ [])
            (nodes [])
        ∷ [])))

-- `{ ...item, accuracy_pct: Math.round(item.accuracy * 100) }`
abbrev pub with_accuracy : Row → Row × Option Field
with_accuracy item = (item, JsMap.get "accuracy" item)

abbrev line : String → String → Node
line key color =
    el "Line"
      (("type", str "monotone")
        ∷ ("dataKey", str key)
        ∷ ("stroke", str color)
        ∷ ("strokeWidth", num 2)
        ∷ [])
      (nodes [])

unfoldable pub scaling_chart : List Row → Node
scaling_chart scaling = panel "Predicted vs Actual RPS" "mt-4 h-80" (
    el "LineChart" (("data", rows (map with_accuracy scaling)) ∷ []) (
      nodes (
        grid
        ∷ el "XAxis" (("dataKey", str "service_id") ∷ []) (nodes [])
        ∷ bare "YAxis"
        ∷ bare "Tooltip"
        ∷ line "predicted_rps" "#6b214f"
        ∷ line "actual_rps" "#0f766e"
        ∷ [])))

-- `import.meta.env.VITE_GRAFANA_URL || "http://localhost:3000"`
abbrev pub grafana_url : (String → Option String) → String
grafana_url env = text_or (env "VITE_GRAFANA_URL") "http://localhost:3000"

unfoldable pub metrics_explorer : (String → Option String) → Snapshot → Node
metrics_explorer env snapshot = classed "div" "grid gap-4" (
    classed "div" "grid gap-4 xl:grid-cols-2"
      (latency_chart snapshot.services ∷ error_rate_chart snapshot.services ∷ [])
    ∷ classed "div" "panel overflow-hidden" (
        el "iframe"
          (("title", str "Grafana")
            ∷ ("src", str (grafana_url env))
            ∷ ("className", str "h-[520px] w-full border-0")
            ∷ [])
          (nodes [])
        ∷ [])
    ∷ [])
