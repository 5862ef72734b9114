-- ===== src/Notification/Dedupe.antt =====
-- `isDuplicate` of services/notification-service/src/server.js. The clock is read once to compare
-- and once to store.
use aiself_healer.Common.{
  ℕ, ◌+◌, String, Bool, true, false, ◌&&◌, not, Option, none, some, ◌<>◌, if◌then◌else◌, ltb,
  nat_eq, or_else, text_or, ◌≡◌, arith, ◌==◌,
}
use aiself_healer.JsMap
use aiself_healer.JsMap.Laws.{get-set}
use aiself_healer.JsMap.{JsMap}

-- The fields that the service reads of an alert; each is a text or absent.
pub record Alert : Type 0 where
  pub tenant_id : Option String
  pub service_id : Option String
  pub severity : Option String
  pub message : Option String
  pub event_type : Option String
  pub channel : Option String
  pub email : Option String
  pub webhook_url : Option String

-- An absent value in a template prints as "undefined".
abbrev pub printed : Option String → String
printed none = "undefined"
printed (some s) = s

-- `${alert.service_id}:${alert.severity || "info"}:${alert.message || alert.event_type}`
unfoldable pub alert_key : Alert → String
alert_key alert =
    printed alert.service_id
    <> (":"
        <> (text_or alert.severity "info"
            <> (":" <> printed (or_else alert.message alert.event_type))))

-- the default window, five minutes
abbrev pub window_ms : ℕ
window_ms = 300000

-- `last && Date.now() - last < windowMs`; a stored 0 is falsy
abbrev pub recent : ℕ → ℕ → Option ℕ → Bool
recent window checked none = false
recent window checked (some last) = not (nat_eq last 0) && ltb checked (last + window)

unfoldable pub is_duplicate : JsMap ℕ → ℕ → ℕ → ℕ → Alert → Bool × JsMap ℕ
is_duplicate dedupe window checked stored alert =
    if recent window checked (JsMap.get (alert_key alert) dedupe)
    then (true, dedupe)
    else (false, JsMap.set (alert_key alert) stored dedupe)

-- An alert is a duplicate exactly when its key was stored less than the window ago. A duplicate
-- stores nothing; any other stores its time under its key, and every other key stays.
pub is_duplicate_lem :
    (dedupe : JsMap ℕ) (window checked stored : ℕ) (alert : Alert)
    → ((is_duplicate dedupe window checked stored alert).0
        ≡ recent window checked (JsMap.get (alert_key alert) dedupe))
      × ((key : String)
          → JsMap.get key (is_duplicate dedupe window checked stored alert).1 ≡ (
              if not (is_duplicate dedupe window checked stored alert).0 && alert_key alert == key
              then some stored
              else JsMap.get key dedupe))
unfolding is_duplicate
is_duplicate_lem dedupe window checked stored alert =
    (ground arith, λ key. ground (arith, get-set (alert_key alert) key stored dedupe))
