-- ===== src/Tests/SessionRuns.antt =====
-- The dashboard while it is open, at a few inputs.
use mathlib.Core.Path.{subst}
use aiself_healer.Common.{
  ℕ, String, true, Option, none, some, List, [], ◌∷◌, ◌++◌, ◌≡◌, refl, sym, map, Memᴰ, All,
  mem-append_left, mem-append_right, is_some,
}
use aiself_healer.JsMap
use aiself_healer.Frontend.Realtime.{Message, anomalies, after, event, receive, push, slice_of}
use aiself_healer.Frontend.Snapshot.{HealthEvent, merge, write_all}
use aiself_healer.Frontend.Shape.{Event, Snapshot, plain}
use aiself_healer.Frontend.Overview.{shown_service, id_of}
use aiself_healer.Frontend.Api.{Settled, resolved, rejected, fallback_snapshot}
use aiself_healer.Frontend.Markup.{count, Action, set_active, select, run_chaos, actions}
use aiself_healer.Frontend.View.Tables.{anomaly_feed}
use aiself_healer.Frontend.View.Cells.{anomaly_feed-count}
use aiself_healer.Frontend.View.Offers.{tab_actions, page_actions, actions-view}
use aiself_healer.Frontend.Session.{
  Session, Setting, Input, act, told, selection, snapshot_of, page, start, perform, apply, run,
  IsOffered, AreOffered,
}
use aiself_healer.Frontend.Session.Requests.{IsForOne, sent, sent-IsFor}
use aiself_healer.Frontend.Session.Pages.{IsOnePage, run-IsOnePage}
use aiself_healer.Frontend.Session.Selection.{after_select}
use aiself_healer.Tests.FrontendRuns.{scored}

abbrev fallback : Snapshot
fallback = fallback_snapshot "now" "earlier" "before"

abbrev latest_resolved : List (Settled Snapshot) → Option Snapshot
latest_resolved [] = none
latest_resolved (resolved s ∷ polls) = some s
latest_resolved (rejected ∷ polls) = latest_resolved polls

abbrev setting : Setting (HealthEvent ℕ)
setting = record {
  env = λ name. none;
  local_time = λ time. "noon";
  now = λ row. 0;
  as_event = λ e. plain [];
  as_health = λ e. e;
  query = latest_resolved;
  fallback = fallback;
}

abbrev opening : Session (HealthEvent ℕ)
opening = start setting

-- What the page of a session offers.
offered :
    (s : Session (HealthEvent ℕ)) (a : Action)
    → Memᴰ a
        (tab_actions ++ page_actions s.app.active (snapshot_of setting s) (selection s.selected))
    → Memᴰ a (actions (page setting s))
offered s a m = subst (Memᴰ a) (sym (actions-view _ _ _ _ _ _ _ _)) m

-- What the map's page offers beside the tabs.
pod_kill_offered :
    (s : Session (HealthEvent ℕ)) (n : Option String)
    → s.app.active ≡ "map"
    → n ≡ id_of (shown_service (snapshot_of setting s) (selection s.selected))
    → Memᴰ (run_chaos "pod_kill" n) (actions (page setting s))
pod_kill_offered s n on shown = offered s _ (
    mem-append_right tab_actions _ (
      rw (on, shown)
        (mem-append_right (map select (map (λ s. s.id) (snapshot_of setting s).services)) _
          (Memᴰ.head refl))))

abbrev health_event : Input (HealthEvent ℕ)
health_event = told (event "service.health" (scored 70))

abbrev inputs : List (Input (HealthEvent ℕ))
inputs =
    health_event ∷ act (run_chaos "pod_kill" (some "api-gateway")) ∷ act (set_active "metrics") ∷ []

inputs-AreOffered : AreOffered setting opening inputs
unfolding start apply perform receive merge fallback_snapshot shown_service push slice_of JsMap.get
    JsMap.set write_all
inputs-AreOffered = (
  tt,
  (
    pod_kill_offered (apply setting opening health_event) _ refl refl,
    (
      offered (apply setting opening health_event) _
          (mem-append_left tab_actions _ (Memᴰ.tail (Memᴰ.head refl))),
      tt,
    ),
  ),
)

sent-IsFor_example : All (IsForOne setting) (sent setting opening inputs)
sent-IsFor_example = sent-IsFor setting opening inputs inputs-AreOffered

run-IsOnePage_example : IsOnePage setting (run setting opening inputs)
run-IsOnePage_example = run-IsOnePage setting inputs inputs-AreOffered

abbrev selected : Session (HealthEvent ℕ)
selected = after_select setting opening "data-service" (health_event ∷ [])

selected-IsOffered : IsOffered setting selected (act (run_chaos "pod_kill" (some "data-service")))
unfolding start apply perform receive merge fallback_snapshot shown_service push slice_of run
    JsMap.get JsMap.set write_all
selected-IsOffered = pod_kill_offered selected _ refl refl

opening_drawn : is_some opening.selected ≡ true
unfolding start
opening_drawn = refl

abbrev anomaly_messages : List (Message Event)
anomaly_messages = event "anomaly.detected" (plain []) ∷ event "scale.event" (plain []) ∷ []

anomaly_feed-count_example :
    let page =
      anomaly_feed
        (λ time. "noon")
        (λ row. 0)
        ((after Event anomaly_messages).slices anomalies)
        fallback in
    (count "tr" page ≡ 3) × (count "td" page ≡ 10)
unfolding fallback_snapshot slice_of
anomaly_feed-count_example =
    anomaly_feed-count (λ time. "noon") (λ row. 0) anomaly_messages fallback
