-- ===== src/Frontend/View/Map.antt =====
-- frontend/src/components/ServiceGraph.jsx and frontend/src/pages/HealthMap.jsx: the graph of the
-- services, and the panel of the selected one. The functions of the style sheet are properties of
-- their own.
use aiself_healer.Common.{
  ℕ, ◌*◌, min, max, String, Option, none, some, List, [], ◌∷◌, ◌<>◌, leb, if◌then◌else◌,
}
use aiself_healer.Frontend.Snapshot.{Service}
use aiself_healer.Frontend.Shape.{Edge, Snapshot}
use aiself_healer.Frontend.Overview.{elements, color_for, id_of, shown_service}
use aiself_healer.Frontend.Markup.{
  Node, Action, words, figure, el, nodes, classed, select, run_chaos, str, num, literal, click, tap,
  drawn, node_color, edge_width, whole, percent_of_hundredths, optional_text,
}

-- `Math.max(2, Math.min(9, traffic / 15))`, in fifteenths
abbrev pub width_of : ℕ → ℕ
width_of traffic = max 30 (min 135 traffic)

abbrev node_style : String
node_style =
    "{\"label\":\"data(label)\",\"text-valign\":\"center\",\"text-halign\":\"center\",\"color\":\"#ffffff\",\"font-size\":10,\"font-weight\":700,\"text-wrap\":\"wrap\",\"text-max-width\":78,\"width\":82,\"height\":82,\"border-width\":3,\"border-color\":\"#ffffff\"}"

abbrev edge_style : String
edge_style =
    "{\"line-color\":\"#7c8aa5\",\"target-arrow-color\":\"#7c8aa5\",\"target-arrow-shape\":\"triangle\",\"curve-style\":\"bezier\",\"opacity\":0.78}"

unfoldable pub service_graph : List (Service ℕ) → List Edge → (String → Action) → Node
service_graph services edges on_select = classed "div" "panel min-h-[460px] overflow-hidden" (
    el "CytoscapeComponent"
      (("elements", drawn (elements services edges))
        ∷ ("style", literal "{\"width\":\"100%\",\"height\":\"460px\"}")
        ∷ (
          "layout",
          literal
              "{\"name\":\"cose\",\"animate\":false,\"nodeRepulsion\":7000,\"idealEdgeLength\":130}",
        )
        ∷ ("cy", tap on_select)
        ∷ ("stylesheet node", literal node_style)
        ∷ ("stylesheet node background-color", node_color color_for)
        ∷ ("stylesheet edge", literal edge_style)
        ∷ ("stylesheet edge width", edge_width width_of)
        ∷ [])
      (nodes [])
    ∷ [])

abbrev pub badge_class : Option (Service ℕ) → String
badge_class none = "bg-danger"
badge_class (some s) =
    if leb 90 s.health_score
    then "bg-ok"
    else if leb 75 s.health_score
    then "bg-warn"
    else "bg-danger"

-- `service?.field || 0`
abbrev pub field_or_0 : (Service ℕ → ℕ) → Option (Service ℕ) → ℕ
field_or_0 field none = 0
field_or_0 field (some s) = field s

-- `{service?.field}`, which shows nothing where there is no service
abbrev pub optional_figure : (Service ℕ → ℕ) → Option (Service ℕ) → List Node → List Node
optional_figure field none rest = rest
optional_figure field (some s) rest = figure (whole (field s)) ∷ rest

abbrev pub optional_field : (Service ℕ → String) → Option (Service ℕ) → List Node
optional_field field none = optional_text none
optional_field field (some s) = optional_text (some (field s))

abbrev pub summary : Option (Service ℕ) → Node
summary service = classed "div" "flex items-start justify-between gap-3" (
    el "div" [] (
      nodes (
        classed "h2" "text-lg font-semibold text-ink" (optional_field (λ s. s.name) service)
        ∷ classed "p" "mt-1 text-sm text-slate-500" (optional_field (λ s. s.status) service)
        ∷ []))
    ∷ classed "span" ("rounded px-2 py-1 text-sm font-semibold text-white " <> badge_class service)
        (figure (whole (field_or_0 (λ s. s.health_score) service)) ∷ words "%" ∷ [])
    ∷ [])

abbrev pub detail : String → List Node → Node
detail label value = classed "div" "rounded border border-line p-3" (
    classed "dt" "text-xs text-slate-500" (words label ∷ [])
    ∷ classed "dd" "mt-1 text-lg font-semibold" value
    ∷ [])

-- the four figures of the service; an error rate is in thousandths
abbrev pub details : Option (Service ℕ) → Node
details service = classed "dl" "mt-5 grid grid-cols-2 gap-3" (
    detail "P99" (optional_figure (λ s. s.p99_latency_ms) service (words " ms" ∷ []))
    ∷ detail "Errors" (
        figure (percent_of_hundredths (field_or_0 (λ s. s.error_rate) service * 10))
        ∷ words "%"
        ∷ [])
    ∷ detail "RPS" (figure (whole (field_or_0 (λ s. s.throughput_rps) service)) ∷ [])
    ∷ detail "Replicas" (optional_figure (λ s. s.replicas) service [])
    ∷ [])

abbrev pub chaos_button : String → Action → String → String → String → Node
chaos_button title action name icon label =
    el "button"
      (("type", str "button")
        ∷ ("title", str title)
        ∷ ("onClick", click action)
        ∷ ("className", str name)
        ∷ [])
      (nodes (el icon (("size", num 17) ∷ []) (nodes []) ∷ words label ∷ []))

abbrev pub chaos_buttons : Option (Service ℕ) → Node
chaos_buttons service = classed "div" "mt-5 grid grid-cols-2 gap-2" (
    chaos_button "Trigger dry-run pod kill" (run_chaos "pod_kill" (id_of service))
      "flex items-center justify-center gap-2 rounded bg-ink px-3 py-2 text-sm font-semibold text-white"
      "FlaskConical" "Pod Kill"
    ∷ chaos_button "Trigger dry-run latency" (run_chaos "network_latency" (id_of service))
        "flex items-center justify-center gap-2 rounded border border-line bg-white px-3 py-2 text-sm font-semibold text-ink"
        "ShieldCheck" "Latency"
    ∷ [])

unfoldable pub health_map : Snapshot → Option String → Node
health_map snapshot selected =
    let service = shown_service snapshot selected in
    classed "div" "grid gap-4 lg:grid-cols-[1fr_360px]" (
      service_graph snapshot.services snapshot.edges select
      ∷ classed "aside" "panel p-4" (summary service ∷ details service ∷ chaos_buttons service ∷ [])
      ∷ [])
