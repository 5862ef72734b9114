-- ===== src/Frontend/Session.antt =====
-- The dashboard while it is open: the state of frontend/src/App.jsx, of the page
-- frontend/src/pages/HealthMap.jsx while that is drawn, of the store of live events and of the query,
-- under what the user does and what arrives. A component's state begins when it is first drawn and
-- ends when it is no longer drawn. The query package is an argument, and so are the two views of an
-- event, whose JSON the store does not look into.
pub mod Requests
pub mod Pages
pub mod Selection
use aiself_healer.Common.{
  ℕ, String, Bool, true, Option, none, some, List, [], ◌∷◌, ◌==◌, if◌then◌else◌, map, Memᴰ,
}
use aiself_healer.JsMap.{JsMap}
use aiself_healer.Frontend.Realtime as Realtime
use aiself_healer.Frontend.Realtime.{Slice, health, Store, Message, receive}
use aiself_healer.Frontend.Snapshot.{HealthEvent, merge}
use aiself_healer.Frontend.Shape.{Field, Row, Event, Snapshot}
use aiself_healer.Frontend.Overview.{selected_first}
use aiself_healer.Frontend.Api.{Settled, ChaosRun, App, opened, chaos_settled, data_or}
use aiself_healer.Frontend.Markup.{Node, Action, set_active, select, run_chaos, actions}
use aiself_healer.Frontend.View.Page.{view}

-- the body that `triggerChaos` posts; a service that is undefined is left out
pub record ChaosRequest : Type 0 where
  pub experiment : String
  pub service_name : Option String
  pub dry_run : Bool

unfoldable pub chaos_request : String → Option String → ChaosRequest
chaos_request experiment service_name = record {
  experiment = experiment;
  service_name = service_name;
  dry_run = true;
}

-- The arguments of the `fetch`; the path is behind the URL of the gateway.
pub record ChaosFetch : Type 0 where
  pub path : String
  pub method : String
  pub headers : JsMap String
  pub body : ChaosRequest

unfoldable pub chaos_fetch : String → Option String → ChaosFetch
chaos_fetch experiment service_name = record {
  path = "/api/v1/chaos/run";
  method = "POST";
  headers = ("content-type", "application/json") ∷ [];
  body = chaos_request experiment service_name;
}

pub record Session (E : Type 0) : Type 0 where
  pub app : App
  -- the selection of HealthMap, while that is drawn
  pub selected : Option (Option String)
  pub store : Store E
  -- what the polls came to, the latest first
  pub polls : List (Settled Snapshot)

pub data Input (E : Type 0) : Type 0 where
  act : Action → Input E
  told : Message E → Input E
  polled : Settled Snapshot → Input E
  chaos_done : Settled ChaosRun → Input E

-- Around the page: the environment of the build, the browser's times, what the events hold, the
-- query, and the snapshot to fall back on.
pub record Setting (E : Type 0) : Type 0 where
  pub env : String → Option String
  pub local_time : Option Field → String
  pub now : Row → ℕ
  pub as_event : E → Event
  pub as_health : E → HealthEvent ℕ
  pub query : List (Settled Snapshot) → Option Snapshot
  pub fallback : Snapshot

abbrev pub selection : Option (Option String) → Option String
selection none = none
selection (some s) = s

-- the state of a page that is drawn next, kept where the page was drawn before
abbrev pub kept_or : Option (Option String) → Option String → Option (Option String)
kept_or none first = some first
kept_or (some s) first = some s

-- `setSelected`, which only a page that is drawn can call
abbrev pub reselected : Option (Option String) → String → Option (Option String)
reselected none id = none
reselected (some s) id = some (some id)

module _ {E : Type 0} (setting : Setting E) where
  open setting use {env, local_time, now, as_event, as_health, query, fallback}

  -- what the query holds, or the fall-back
  abbrev pub data_of : List (Settled Snapshot) → Snapshot
  data_of polls = data_or fallback (query polls)

  -- `snapshot`: the data, with the services under the health events
  abbrev pub snapshot_of : Session E → Snapshot
  snapshot_of s =
      let held = data_of s.polls in
      record held { services = merge ℕ (map as_health (s.store.slices health)) held.services }

  unfoldable pub start : Session E
  start = record {
    app = opened;
    selected = some (selected_first (data_of []));
    store = Realtime.init E;
    polls = [];
  }

  -- the page as it is drawn
  abbrev pub page : Session E → Node
  page s =
      view env local_time now s.app s.store.connected (λ key. map as_event (s.store.slices key))
        (snapshot_of s) (selection s.selected)

  unfoldable pub perform : Session E → Action → Session E
  perform s (set_active id) = record s {
    app = record s.app { active = id };
    selected = if id == "map" then kept_or s.selected (selected_first (snapshot_of s)) else none;
  }
  perform s (select id) = record s { selected = reselected s.selected id }
  perform s (run_chaos experiment service_name) = s

  unfoldable pub apply : Session E → Input E → Session E
  apply s (act a) = perform s a
  apply s (told m) = record s { store = receive E s.store m }
  apply s (polled result) = record s { polls = result ∷ s.polls }
  apply s (chaos_done result) = record s { app = chaos_settled s.app result }

  unfoldable pub run : Session E → List (Input E) → Session E
  run s [] = s
  run s (i ∷ inputs) = run (apply s i) inputs

  -- the request that an input sends
  abbrev pub request : Input E → List ChaosRequest
  request (act (run_chaos experiment service_name)) = chaos_request experiment service_name ∷ []
  request (act (set_active id)) = []
  request (act (select id)) = []
  request (told m) = []
  request (polled result) = []
  request (chaos_done result) = []

  -- A user does only what the page offers.
  abbrev pub IsOffered : Session E → Input E → Type 0
  IsOffered s (act a) = Memᴰ a (actions (page s))
  IsOffered s (told m) = Unit
  IsOffered s (polled result) = Unit
  IsOffered s (chaos_done result) = Unit

  abbrev pub AreOffered : Session E → List (Input E) → Type 0
  AreOffered s [] = Unit
  AreOffered s (i ∷ inputs) = IsOffered s i × AreOffered (apply s i) inputs
