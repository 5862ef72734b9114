-- ===== src/Notification/History.antt =====
-- What `deliver` leaves in the history, and what becomes of an alert that could not be sent.
use aiself_healer.Common.{
  List, [], refl, ◌+◌, ◌≤◌, ◌<◌, String, Bool, true, false, Option, some, ◌∷◌, ◌==◌, if◌then◌else◌,
  ◌≡◌, arith, length, take, length-take-le, eq_refl, inl, inr, Bool-cases,
}
use aiself_healer.JsMap
use aiself_healer.JsMap.Laws.{get-set}
use aiself_healer.Notification.Dedupe.{Alert, alert_key, recent, is_duplicate, window_ms}
use aiself_healer.Notification.Deliver.{
  Message, Readings, Service, Result, deduped, sent, thrown, kept, record_of, routed, goes_out,
  post_notification, on_message, count, deliver, Notification,
}

pub count-history : (s : Service) (result : Result) → (count s result).history ≡ s.history
count-history s (sent n) = refl
count-history s (deduped alert) = refl
count-history s thrown = refl

module _ (slack_url : Option String) (takes : Message → Bool) where
  module _ (s : Service) (r : Readings) (alert : Alert) where
    abbrev duplicate : Bool
    duplicate = recent window_ms r.checked (JsMap.get (alert_key alert) s.dedupe)

    abbrev made : Notification
    made = record_of slack_url r alert

    -- What an alert's delivery answers and leaves.
    pub data Delivers (result : Service × Result) : Type 0 where
      suppressed : duplicate ≡ true → result ≡ (s, deduped alert) → Delivers result
      delivered :
          duplicate ≡ false
          → goes_out slack_url takes (routed slack_url made) ≡ true
          → result.0.history ≡ take kept (made ∷ s.history)
          → ((key : String)
              → JsMap.get key result.0.dedupe
                ≡ (if alert_key alert == key then some r.stored else JsMap.get key s.dedupe))
          → result.1 ≡ sent made
          → Delivers result
      failed :
          duplicate ≡ false
          → goes_out slack_url takes (routed slack_url made) ≡ false
          → result.0.history ≡ s.history
          → ((key : String)
              → JsMap.get key result.0.dedupe
                ≡ (if alert_key alert == key then some r.stored else JsMap.get key s.dedupe))
          → result.1 ≡ thrown
          → Delivers result

    -- A duplicate within the window answers so and changes nothing. Any other alert stores its
    -- time under its key; if its message goes out, or none is due, it is put in front of the
    -- history, cut to two hundred, and answered as sent; if its message is not taken, the history
    -- stays and the exception passes on.
    pub deliver-Delivers : Delivers (deliver slack_url takes s r alert)
    unfolding deliver is_duplicate
    deliver-Delivers = elim (Bool-cases duplicate) [
      | inl old ↦ suppressed old (ground arith)
      | inr new ↦ elim (Bool-cases (goes_out slack_url takes (routed slack_url made))) [
        | inl out ↦
            delivered new out (ground arith)
              (λ key. ground (arith, get-set (alert_key alert) key r.stored s.dedupe))
              (ground arith)
        | inr stuck ↦
            failed new stuck (ground arith)
              (λ key. ground (arith, get-set (alert_key alert) key r.stored s.dedupe))
              (ground arith)
      ]
    ]

  deliver-duplicate :
      (s : Service) (r : Readings) (alert : Alert)
      → duplicate s r alert ≡ true
      → deliver slack_url takes s r alert ≡ (s, deduped alert)
  unfolding deliver is_duplicate
  deliver-duplicate s r alert old = ground arith

  -- The history never holds more than two hundred notifications.
  pub history-deliver-le :
      (s : Service) (r : Readings) (alert : Alert)
      → length s.history ≤ kept
      → length (deliver slack_url takes s r alert).0.history ≤ kept
  history-deliver-le s r alert h = elim (deliver-Delivers s r alert) [
    | suppressed old e ↦ rw e h
    | delivered new out kept_now times answer ↦
        rw kept_now (length-take-le kept (made s r alert ∷ s.history))
    | failed new stuck same times answer ↦ rw same h
  ]

  -- An alert whose message is not taken, at a time past 0, is suppressed when it comes again
  -- within the window: the answer calls it a duplicate and nothing is put into the history.
  pub thrown-deliver :
      (s : Service) (r again : Readings) (alert : Alert)
      → (deliver slack_url takes s r alert).1 ≡ thrown
      → 0 < r.stored
      → again.checked < r.stored + window_ms
      → deliver slack_url takes (deliver slack_url takes s r alert).0 again alert
        ≡ ((deliver slack_url takes s r alert).0, deduped alert)
  thrown-deliver s r again alert h positive soon = elim (deliver-Delivers s r alert) [
    | suppressed old e ↦ absurd (ground arith)
    | delivered new out kept_now times answer ↦ absurd (ground arith)
    | failed new stuck same times answer ↦
        deliver-duplicate _ again alert
          (ground (arith, times (alert_key alert), eq_refl (alert_key alert)))
  ]

  -- What comes in: a request to one of the two POST routes, or a message of a topic.
  pub data Input : Type 0 where
    posts : Readings → Alert → Input
    consumes : Readings → String → Alert → Input

  pub serve : Service → List Input → Service
  serve s [] = s
  serve s (posts r alert ∷ rest) = serve (post_notification slack_url takes s r alert).0 rest
  serve s (consumes r topic alert ∷ rest) = serve (on_message slack_url takes s r topic alert) rest

  -- Whatever comes in, a history of at most two hundred notifications never gets longer than that.
  pub history-serve-le :
      (inputs : List Input) (s : Service)
      → length s.history ≤ kept
      → length (serve s inputs).history ≤ kept
  unfolding serve post_notification on_message
  history-serve-le [] s h = h
  history-serve-le (posts r alert ∷ rest) s h = history-serve-le rest _ (
      rw (count-history (deliver slack_url takes s r alert).0 (deliver slack_url takes s r alert).1)
        (history-deliver-le s r alert h))
  history-serve-le (consumes r topic alert ∷ rest) s h =
      history-serve-le rest _ (history-deliver-le s r _ h)
