-- ===== src/Notification/Deliver.antt =====
-- `deliver` of services/notification-service/src/server.js, and the handlers that call it. What
-- `fetch` and the mail transport do with a message is an argument: they take it, or throw.
use aiself_healer.Common.{
  ℕ, String, Bool, true, ◌&&◌, Option, none, some, List, ◌∷◌, ◌<>◌, ◌==◌, if◌then◌else◌, text_or,
  truthy, is_some, after_prefix, remove_first, take,
}
use aiself_healer.JsMap.{JsMap}
use aiself_healer.Notification.Dedupe.{Alert, window_ms, is_duplicate}

pub record Notification : Type 0 where
  pub id : String
  pub tenant_id : String
  pub service_id : String
  pub channel : String
  pub severity : String
  pub message : String
  pub payload : Alert
  pub created_at : String

-- What leaves the service: a post to Slack, a mail, or a post to a webhook.
pub data Message : Type 0 where
  slack : String → String → Alert → Message
  mail : String → String → String → Message
  webhook : String → Notification → Message

-- The readings of one call: the clock twice, the random id, and the date as it prints.
pub record Readings : Type 0 where
  pub checked : ℕ
  pub stored : ℕ
  pub uuid : String
  pub created_at : String

pub record Service : Type 0 where
  pub history : List Notification
  pub dedupe : JsMap ℕ
  -- the labels that the counter was increased with, latest first
  pub counted : List (String × String)

pub data Result : Type 0 where
  deduped : Alert → Result
  sent : Notification → Result
  thrown : Result

abbrev pub kept : ℕ
kept = 200

-- What follows in the two POST handlers: the counter, and the status of the reply; there is none
-- where the exception is not caught.
abbrev pub count : Service → Result → Service
count s (sent n) = record s { counted = (n.channel, n.severity) ∷ s.counted }
count s (deduped alert) = s
count s thrown = s

abbrev pub status_of : Result → Option ℕ
status_of (deduped alert) = some 202
status_of (sent n) = some 201
status_of thrown = none

-- `topic.replace("neuralmesh.", "")`
abbrev pub event_of_topic : String → String
event_of_topic topic = remove_first "neuralmesh." topic

module _ (slack_url : Option String) where
  unfoldable pub record_of : Readings → Alert → Notification
  record_of r alert = record {
    id = "notification_" <> r.uuid;
    tenant_id = text_or alert.tenant_id "tenant-demo";
    service_id = text_or alert.service_id "unknown";
    channel = text_or alert.channel (if truthy slack_url then "slack" else "email-dry-run");
    severity = text_or alert.severity "warning";
    message =
        text_or alert.message
          (text_or alert.event_type "alert" <> (" for " <> text_or alert.service_id "unknown"));
    payload = alert;
    created_at = r.created_at;
  }

  -- the message that the channel asks for, if any
  unfoldable pub routed : Notification → Option Message
  routed n =
      if n.channel == "slack" && truthy slack_url
      then some (slack (text_or slack_url "") n.message n.payload)
      else if is_some (after_prefix "email" n.channel)
      then some (
          mail (text_or n.payload.email "sre@example.com")
            ("[NeuralMesh] " <> (n.severity <> (": " <> n.service_id))) n.message)
      else if n.channel == "webhook" && truthy n.payload.webhook_url
      then some (webhook (text_or n.payload.webhook_url "") n)
      else none

module _ (slack_url : Option String) (takes : Message → Bool) where
  abbrev pub goes_out : Option Message → Bool
  goes_out none = true
  goes_out (some m) = takes m

  -- `history.unshift(record); history.splice(200)`
  unfoldable pub deliver : Service → Readings → Alert → Service × Result
  deliver s r alert =
      let (duplicate, dedupe) = is_duplicate s.dedupe window_ms r.checked r.stored alert in
      let n = record_of slack_url r alert in
      if duplicate
      then (s, deduped alert)
      else if goes_out (routed slack_url n)
      then (record s { dedupe = dedupe; history = take kept (n ∷ s.history) }, sent n)
      else (record s { dedupe = dedupe }, thrown)

  unfoldable pub post_notification : Service → Readings → Alert → Service × Option ℕ × Result
  post_notification s r alert =
      let (s', result) = deliver s r alert in (count s' result, status_of result, result)

  -- the consumer's `eachMessage`, which catches what `deliver` throws
  unfoldable pub on_message : Service → Readings → String → Alert → Service
  on_message s r topic value =
      (deliver s r (record value { event_type = some (event_of_topic topic) })).0
