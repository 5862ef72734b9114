-- ===== src/Tests/NotificationRuns.antt =====
-- The notification service at a repeated alert.
use aiself_healer.Common.{
  ℕ, ◌+◌, ◌≤◌, true, false, none, some, [], ◌∷◌, ◌++◌, map, take, List, ◌≡◌, ◌↔◌, refl, arith, All,
  after_prefix, remove_first,
}
use aiself_healer.JsMap
use aiself_healer.Notification.Dedupe.{Alert, alert_key, is_duplicate}
use aiself_healer.Notification.App.{
  history, post, asks, consumes, notifications, answer, arrive, Arrival,
}
use aiself_healer.Notification.App.Feed.{after, sent_by, posted, labels, after-listed}
use aiself_healer.Notification.Deliver.{
  Readings, Service, kept, thrown, deduped, deliver, routed, record_of, post_notification,
  on_message,
}
use aiself_healer.Notification.Spacing.{Event, passes, passed, passes_iff}
use aiself_healer.Notification.History.{thrown-deliver}
use aiself_healer.Notification.Consumer.{each_message}
use aiself_healer.Notification.Announce.{IsPlain, announced, each_message-announces}

abbrev pub alert : Alert
alert = record {
  tenant_id = none;
  service_id = some "cart";
  severity = some "critical";
  message = none;
  event_type = some "down";
  channel = some "email";
  email = none;
  webhook_url = none;
}

abbrev pub readings : ℕ → Readings
readings t = record { checked = t; stored = t; uuid = "u"; created_at = "2026-01-01" }

abbrev pub empty_service : Service
empty_service = record { history = []; dedupe = []; counted = [] }

abbrev event : ℕ → Event
event t = record { checked = t; stored = t; alert = alert }

passes_iff_example :
    (passes 100 (event 180 ∷ event 120 ∷ event 50 ∷ []) (event 200) ≡ true)
    ↔ All
        (λ t. t + 100 ≤ 200)
        (passed 100 (alert_key alert) (event 180 ∷ event 120 ∷ event 50 ∷ []))
passes_iff_example = passes_iff 100 (event 180 ∷ event 120 ∷ event 50 ∷ []) (event 200) (
  omega arith,
  omega arith,
  (omega arith, (omega arith, tt)),
  (omega arith, omega arith, (omega arith, tt), (omega arith, omega arith, tt, tt)),
)

mail_fails : (deliver none (λ m. false) empty_service (readings 1000) alert).1 ≡ thrown
unfolding deliver is_duplicate routed record_of alert_key JsMap.get after_prefix
mail_fails = refl

thrown-deliver_example :
    deliver none
      (λ m. false)
      (deliver none (λ m. false) empty_service (readings 1000) alert).0
      (readings 2000)
      alert
    ≡ ((deliver none (λ m. false) empty_service (readings 1000) alert).0, deduped alert)
thrown-deliver_example =
    thrown-deliver none (λ m. false) empty_service (readings 1000) (readings 2000) alert mail_fails
      (omega arith) (omega arith)

-- a second alert comes with a message of the consumer, after one that a request posted
abbrev arrivals : List Arrival
arrivals =
    consumes (readings 2000) "neuralmesh.anomaly.detected"
      (record alert { service_id = some "user" })
    ∷ asks (readings 1000) (post (some alert))
    ∷ []

after-listed_example :
    ((answer none
        (λ m. true)
        (after none (λ m. true) empty_service arrivals)
        (readings 3000)
        history).1
      ≡ notifications (take kept (sent_by none (λ m. true) empty_service arrivals ++ [])))
    × ((after none (λ m. true) empty_service arrivals).counted
        ≡ map labels (posted none (λ m. true) empty_service arrivals) ++ [])
after-listed_example =
    after-listed none (λ m. true) empty_service arrivals (readings 3000) (omega arith)

one_counted : (after none (λ m. true) empty_service arrivals).counted ≡ ("email", "critical") ∷ []
unfolding after arrive answer post_notification on_message deliver is_duplicate routed record_of
    alert_key JsMap.get JsMap.set after_prefix remove_first
one_counted = refl

-- an alert with no text of its own and no channel
abbrev plain : Alert
plain = record alert { severity = none; event_type = none; channel = none }

plain-IsPlain :
    IsPlain "s" (λ m. true) (λ text. some plain) (readings 1000) "anomaly.detected" "cart" plain
plain-IsPlain = record {
  url_set = refl;
  event_named = refl;
  service_named = refl;
  of_service = refl;
  no_message = refl;
  no_channel = refl;
}

each_message-announces_example :
    (s' : Service) × (each_message
        (some "s")
        (λ m. true)
        (λ text. some plain)
        empty_service
        (readings 1000)
        "neuralmesh.anomaly.detected"
        (some "{}")
      ≡ some s')
    × (s'.history ≡ (
        take kept (
          announced "s"
            (λ m. true)
            (λ text. some plain)
            (readings 1000)
            "anomaly.detected"
            "cart"
            plain
          ∷ [])))
unfolding JsMap.get
each_message-announces_example =
    each_message-announces "s" (λ m. true) (λ text. some plain) (readings 1000) "anomaly.detected"
      "cart" plain empty_service "{}" refl plain-IsPlain refl
