-- ===== src/Frontend/View/Strips.antt =====
-- frontend/src/components/Header.jsx and frontend/src/components/KpiStrip.jsx: what stands above
-- every page.
use aiself_healer.Common.{ℕ, String, Bool, List, [], ◌∷◌, ◌<>◌, ◌==◌, if◌then◌else◌, map}
use aiself_healer.Frontend.Snapshot.{Service}
use aiself_healer.Frontend.Overview.{Tone, ok, warn, Kpis, kpis}
use aiself_healer.Frontend.Markup.{
  Node, words, figure, el, nodes, classed, set_active, str, num, click, whole, quotient,
}

pub record Tab : Type 0 where
  pub id : String
  pub label : String
  pub icon : String

abbrev tab : String → String → String → Tab
tab id label icon = record { id = id; label = label; icon = icon }

abbrev pub tabs : List Tab
tabs =
    tab "map" "Health" "Network"
    ∷ tab "metrics" "Metrics" "Activity"
    ∷ tab "anomalies" "Anomalies" "BrainCircuit"
    ∷ tab "healing" "Healing" "ShieldCheck"
    ∷ tab "scaling" "Scaling" "Bell"
    ∷ []

abbrev pub tab_class : Bool → String
tab_class selected =
    "flex min-w-0 items-center justify-center gap-2 rounded px-3 py-2 text-sm font-medium transition "
    <> (if selected then "bg-white text-ink shadow-sm" else "text-slate-600 hover:bg-white/70")

abbrev pub tab_button : String → Tab → Node
tab_button active t =
    el "button"
      (("key", str t.id)
        ∷ ("type", str "button")
        ∷ ("title", str t.label)
        ∷ ("onClick", click (set_active t.id))
        ∷ ("className", str (tab_class (active == t.id)))
        ∷ [])
      (nodes (
        el t.icon (("size", num 17) ∷ []) (nodes [])
        ∷ classed "span" "hidden sm:inline" (words t.label ∷ [])
        ∷ []))

abbrev pub connection : Bool → Node
connection connected = classed "div" "mt-1 flex items-center gap-2 text-sm text-slate-600" (
    classed "span" ("status-dot " <> (if connected then "bg-ok" else "bg-warn")) []
    ∷ el "span" []
        (nodes (words (if connected then "Live stream connected" else "Snapshot mode") ∷ []))
    ∷ [])

unfoldable pub header : Bool → String → Node
header connected active = classed "header" "border-b border-line bg-white" (
    classed "div"
      "mx-auto flex max-w-7xl flex-col gap-4 px-4 py-4 lg:flex-row lg:items-center lg:justify-between"
      (el "div" [] (
          nodes (
            classed "h1" "text-2xl font-semibold tracking-normal text-ink" (words "NeuralMesh" ∷ [])
            ∷ connection connected
            ∷ []))
        ∷ classed "nav" "grid grid-cols-5 gap-1 rounded-md border border-line bg-slate-100 p-1"
            (map (tab_button active) tabs)
        ∷ [])
    ∷ [])

-- One of the four figures: its label, what is printed, its icon and the class of the icon.
pub record Item : Type 0 where
  pub label : String
  pub value : List Node
  pub icon : String
  pub tone : String

abbrev pub tone_class : Tone → String
tone_class ok = "text-ok"
tone_class warn = "text-warn"

abbrev pub items : Kpis → List Item
items k =
    record {
      label = "Average Health";
      value = figure (quotient k.average_health.0 k.average_health.1) ∷ words "%" ∷ [];
      icon = "Gauge";
      tone = tone_class k.health_tone;
    }
    ∷ record {
      label = "Degraded";
      value = figure (whole k.degraded) ∷ [];
      icon = "ServerCrash";
      tone = tone_class k.degraded_tone;
    }
    ∷ record {
      label = "Throughput";
      value = figure (whole k.throughput) ∷ words " rps" ∷ [];
      icon = "Cpu";
      tone = "text-teal";
    }
    ∷ record {
      label = "Replicas";
      value = figure (whole k.replicas) ∷ [];
      icon = "GitBranch";
      tone = "text-aubergine";
    }
    ∷ []

abbrev pub item_panel : Item → Node
item_panel item = el "div" (("key", str item.label) ∷ ("className", str "panel p-4") ∷ []) (
    nodes (
      classed "div" "flex items-center justify-between" (
        classed "span" "text-sm font-medium text-slate-500" (words item.label ∷ [])
        ∷ el item.icon (("className", str item.tone) ∷ ("size", num 19) ∷ []) (nodes [])
        ∷ [])
      ∷ classed "div" "mt-3 text-2xl font-semibold text-ink" item.value
      ∷ []))

unfoldable pub kpi_strip : List (Service ℕ) → Node
kpi_strip services =
    classed "div" "grid gap-3 sm:grid-cols-2 lg:grid-cols-4"
      (map item_panel (items (kpis services)))
