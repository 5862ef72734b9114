-- ===== src/Notification/App.antt =====
-- services/notification-service/src/server.js: the app with its routes, beside the consumer. The
-- text of the metrics is the metrics package's.
pub mod Feed
use aiself_healer.Common.{ℕ, String, Bool, Option, none, some, List}
use aiself_healer.Notification.Dedupe.{Alert}
use aiself_healer.Notification.Deliver.{
  Notification, Message, Service, Readings, Result, post_notification, on_message,
}

-- A request by the route that it matches; the two POST routes have one handler.
pub data Call : Type 0 where
  health metrics history : Call
  test post : Option Alert → Call

pub data Answer : Type 0 where
  healthy measured : Answer
  notifications : List Notification → Answer
  -- the status and the result, or no status where the exception is not caught
  settled : Option ℕ → Result → Answer

abbrev pub no_fields : Alert
no_fields = record {
  tenant_id = none;
  service_id = none;
  severity = none;
  message = none;
  event_type = none;
  channel = none;
  email = none;
  webhook_url = none;
}

-- `req.body || {}`
abbrev pub alert_or_empty : Option Alert → Alert
alert_or_empty none = no_fields
alert_or_empty (some alert) = alert

-- What comes in: a request, or a message of a topic whose value parses.
pub data Arrival : Type 0 where
  asks : Readings → Call → Arrival
  consumes : Readings → String → Alert → Arrival

module _ (slack_url : Option String) (takes : Message → Bool) where
  unfoldable pub answer : Service → Readings → Call → Service × Answer
  answer s r health = (s, healthy)
  answer s r metrics = (s, measured)
  answer s r history = (s, notifications s.history)
  answer s r (test body) =
      let (s', status, result) = post_notification slack_url takes s r (alert_or_empty body) in
      (s', settled status result)
  answer s r (post body) =
      let (s', status, result) = post_notification slack_url takes s r (alert_or_empty body) in
      (s', settled status result)

  unfoldable pub arrive : Service → Arrival → Service
  arrive s (asks r call) = (answer s r call).0
  arrive s (consumes r topic alert) = on_message slack_url takes s r topic alert
