-- ===== src/Notification/App/Feed.antt =====
-- What the notification service lists and counts after whatever came in.
use aiself_healer.Common.{
  ◌≤◌, String, Bool, Option, none, some, List, [], ◌∷◌, ◌++◌, ◌≡◌, ◌∙◌, refl, ap, sym, map, take,
  take-cons-take, take-of_le, length, Bool-cases, inl, inr,
}
use aiself_healer.Notification.Dedupe.{Alert, window_ms, is_duplicate}
use aiself_healer.Notification.Deliver.{
  Notification, Message, Service, Readings, Result, sent, deduped, thrown, deliver, kept, count,
  record_of, routed, goes_out, post_notification, on_message, event_of_topic,
}
use aiself_healer.Notification.History.{count-history}
use aiself_healer.Notification.App.{
  Call, health, metrics, history, test, post, notifications, alert_or_empty, Arrival, asks,
  consumes, answer, arrive,
}

-- The notification that a delivery sent, in front of others.
abbrev pub cons_sent : Result → List Notification → List Notification
cons_sent (sent n) ns = n ∷ ns
cons_sent (deduped alert) ns = ns
cons_sent thrown ns = ns

abbrev pub labels : Notification → String × String
labels n = (n.channel, n.severity)

module _ (slack_url : Option String) (takes : Message → Bool) where
  deliver-made :
      (s : Service) (r : Readings) (alert : Alert) (ns : List Notification)
      → s.history ≡ take kept ns
      → ((deliver slack_url takes s r alert).0.history
          ≡ take kept (cons_sent (deliver slack_url takes s r alert).1 ns))
        × ((deliver slack_url takes s r alert).0.counted ≡ s.counted)
  unfolding deliver
  deliver-made s r alert ns h =
      elim (Bool-cases (is_duplicate s.dedupe window_ms r.checked r.stored alert).0) [
        | inl old ↦ rw old (h, refl)
        | inr new ↦
            elim (Bool-cases
              (goes_out slack_url takes (routed slack_url (record_of slack_url r alert)))) [
                | inl out ↦
                    rw (new, out, h) (take-cons-take kept (record_of slack_url r alert) ns, refl)
                | inr stuck ↦ rw (new, stuck) (h, refl)
              ]
      ]

  -- What came in, the latest first.
  unfoldable pub after : Service → List Arrival → Service
  after s [] = s
  after s (arrival ∷ earlier) = arrive slack_url takes (after s earlier) arrival

  -- The alert that a request asks to deliver, if any.
  pub alert_in : Call → Option Alert
  alert_in health = none
  alert_in metrics = none
  alert_in history = none
  alert_in (test body) = some (alert_or_empty body)
  alert_in (post body) = some (alert_or_empty body)

  pub result_of_request : Service → Readings → Call → Option Result
  result_of_request s r call = elim (alert_in call) [
    | none ↦ none
    | some alert ↦ some (deliver slack_url takes s r alert).1
  ]

  abbrev pub cons_if_sent : Option Result → List Notification → List Notification
  cons_if_sent none ns = ns
  cons_if_sent (some result) ns = cons_sent result ns

  -- The notifications that requests had sent, and those that requests or messages had, the latest
  -- first.
  pub posted : Service → List Arrival → List Notification
  posted s [] = []
  posted s (asks r call ∷ earlier) =
      cons_if_sent (result_of_request (after s earlier) r call) (posted s earlier)
  posted s (consumes r topic alert ∷ earlier) = posted s earlier

  pub sent_by : Service → List Arrival → List Notification
  sent_by s [] = []
  sent_by s (asks r call ∷ earlier) =
      cons_if_sent (result_of_request (after s earlier) r call) (sent_by s earlier)
  sent_by s (consumes r topic alert ∷ earlier) =
      cons_sent
        (deliver slack_url takes (after s earlier) r
          (record alert { event_type = some (event_of_topic topic) })).1
        (sent_by s earlier)

  count-counted :
      (s : Service) (result : Result) (old : List (String × String)) (ns : List Notification)
      → s.counted ≡ map labels ns ++ old
      → (count s result).counted ≡ map labels (cons_sent result ns) ++ old
  count-counted s (sent n) old ns h = ap (◌∷◌ (labels n)) h
  count-counted s (deduped alert) old ns h = h
  count-counted s thrown old ns h = h

  cons_sent-app :
      (result : Result) (ns others : List Notification)
      → cons_sent result (ns ++ others) ≡ cons_sent result ns ++ others
  cons_sent-app (sent n) ns others = refl
  cons_sent-app (deduped alert) ns others = refl
  cons_sent-app thrown ns others = refl

  -- What is kept and counted stands for what was sent and posted.
  Stands : Service → Service → List Notification → List Notification → Type 0
  Stands s now sends posts =
      (now.history ≡ take kept (sends ++ s.history)) × (now.counted ≡ map labels posts ++ s.counted)

  post_notification-Stands :
      (s now : Service) (r : Readings) (alert : Alert) (sends posts : List Notification)
      → Stands s now sends posts
      → Stands s
          (post_notification slack_url takes now r alert).0
          (cons_sent (deliver slack_url takes now r alert).1 sends)
          (cons_sent (deliver slack_url takes now r alert).1 posts)
  unfolding post_notification Stands
  post_notification-Stands s now r alert sends posts (h, c) =
      let (h', c') = deliver-made now r alert (sends ++ s.history) h in
      let result = (deliver slack_url takes now r alert).1 in
      (
        count-history (deliver slack_url takes now r alert).0 result
            ∙ h'
            ∙ ap (take kept) (cons_sent-app result sends s.history),
        count-counted (deliver slack_url takes now r alert).0 result s.counted posts (c' ∙ c),
      )

  after-Stands :
      (s : Service) (arrivals : List Arrival)
      → length s.history ≤ kept
      → Stands s (after s arrivals) (sent_by s arrivals) (posted s arrivals)
  unfolding arrive answer on_message Stands after sent_by posted result_of_request alert_in
  after-Stands s [] h = (sym (take-of_le kept s.history h), refl)
  after-Stands s (asks r health ∷ earlier) h = after-Stands s earlier h
  after-Stands s (asks r metrics ∷ earlier) h = after-Stands s earlier h
  after-Stands s (asks r history ∷ earlier) h = after-Stands s earlier h
  after-Stands s (asks r (test body) ∷ earlier) h =
      post_notification-Stands s (after s earlier) r (alert_or_empty body) _ _
        (after-Stands s earlier h)
  after-Stands s (asks r (post body) ∷ earlier) h =
      post_notification-Stands s (after s earlier) r (alert_or_empty body) _ _
        (after-Stands s earlier h)
  after-Stands s (consumes r topic alert ∷ earlier) h =
      let (h0, c0) = after-Stands s earlier h in
      let value = record alert { event_type = some (event_of_topic topic) } in
      let (h', c') = deliver-made (after s earlier) r value (sent_by s earlier ++ s.history) h0 in
      (
        h'
            ∙ ap (take kept) (
                cons_sent-app (deliver slack_url takes (after s earlier) r value).1
                  (sent_by s earlier) s.history),
        c' ∙ c0,
      )

  -- After whatever came in, requests and messages, at a service that listed at most two hundred
  -- notifications, GET of the history answers the latest two hundred: those that were sent by
  -- either, the latest first, in front of those there were. The counter was increased by the
  -- channel and severity of those that requests had sent, and by no others.
  pub after-listed :
      (s : Service) (arrivals : List Arrival) (r : Readings)
      → length s.history ≤ kept
      → ((answer slack_url takes (after s arrivals) r history).1
          ≡ notifications (take kept (sent_by s arrivals ++ s.history)))
        × ((after s arrivals).counted ≡ map labels (posted s arrivals) ++ s.counted)
  unfolding answer Stands
  after-listed s arrivals r h =
      let (listed, counted) = after-Stands s arrivals h in (ap notifications listed, counted)
