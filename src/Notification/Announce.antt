-- ===== src/Notification/Announce.antt =====
-- What the consumer makes of an alert that names neither a message nor a channel, where Slack is set
-- up: the text, and what is sent and kept.
use aiself_healer.Common.{
  String, Bool, true, false, Option, none, some, ◌∷◌, ◌<>◌, ◌≡◌, refl, arith, is_empty, truthy,
  text_or, if◌then◌else◌, remove_first, after_prefix, after_prefix-append, take, Bool-cases, inl,
  inr,
}
use aiself_healer.JsMap
use aiself_healer.Notification.Dedupe.{Alert, alert_key, recent, is_duplicate, window_ms}
use aiself_healer.Notification.Deliver.{
  Notification, Message, slack, Readings, Service, kept, event_of_topic, record_of, routed, deliver,
  on_message,
}
use aiself_healer.Notification.Consumer.{each_message}

-- Behind the platform's prefix of a topic stands the event.
remove_first-prefix : (p s rest : String) → after_prefix p s ≡ some rest → remove_first p s ≡ rest
unfolding remove_first after_prefix
remove_first-prefix String.[] String.[] rest h = ground (arith, h)
remove_first-prefix (String.◌∷◌ d p) String.[] rest h = absurd (ground (arith, h))
remove_first-prefix p (String.◌∷◌ c s) rest h = ground (arith, h)

event_of_topic-append : (event : String) → event_of_topic ("neuralmesh." <> event) ≡ event
event_of_topic-append event =
    remove_first-prefix "neuralmesh." ("neuralmesh." <> event) event
      (after_prefix-append "neuralmesh." event)

text_or-falsy : (o : Option String) (d : String) → truthy o ≡ false → text_or o d ≡ d
text_or-falsy none d h = refl
text_or-falsy (some a) d h = ground (arith, h)

text_or-filled : (a d : String) → is_empty a ≡ false → text_or (some a) d ≡ a
text_or-filled a d h = ground (arith, h)

module _ (url : String) (takes : Message → Bool) (parse : String → Option Alert) (r : Readings)
    (event service : String) (alert : Alert) where
  -- the alert with its event
  abbrev pub told : Alert
  told = record alert { event_type = some event }

  abbrev pub text : String
  text = event <> (" for " <> service)

  -- the notification that is kept of it
  abbrev pub announced : Notification
  announced = record {
    id = "notification_" <> r.uuid;
    tenant_id = text_or alert.tenant_id "tenant-demo";
    service_id = service;
    channel = "slack";
    severity = text_or alert.severity "warning";
    message = text;
    payload = told;
    created_at = r.created_at;
  }

  pub record IsPlain : Type 0 where
    pub url_set : is_empty url ≡ false
    pub event_named : is_empty event ≡ false
    pub service_named : is_empty service ≡ false
    pub of_service : alert.service_id ≡ some service
    pub no_message : truthy alert.message ≡ false
    pub no_channel : truthy alert.channel ≡ false

  record_of-announced : IsPlain → record_of (some url) r told ≡ announced
  unfolding record_of
  record_of-announced p =
      let set : truthy (some url) ≡ true = ground (arith, p.url_set) in
      rw (p.of_service, text_or-filled service "unknown" p.service_named)
        (rw (text_or-filled event "alert" p.event_named) (
          rw (text_or-falsy alert.message text p.no_message)
            (rw set (rw (text_or-falsy alert.channel "slack" p.no_channel) refl))))

  routed-announced : IsPlain → routed (some url) announced ≡ some (slack url text told)
  unfolding routed
  routed-announced p = ground (arith, p.url_set)

  -- Where Slack is set up, an alert of a topic "neuralmesh." and an event that names a service, but
  -- no message and no channel, and that is no duplicate, is posted to Slack as the event for the
  -- service. It is kept in front of the history with that text and the severity it names, or
  -- "warning", if Slack takes it; otherwise the history stays, and the consumer does not throw.
  pub each_message-announces :
      (s : Service) (value : String)
      → parse value ≡ some alert
      → IsPlain
      → recent window_ms r.checked (JsMap.get (alert_key told) s.dedupe) ≡ false
      → (s' : Service) × (each_message
            (some url)
            takes
            parse
            s
            r
            ("neuralmesh." <> event)
            (some value)
          ≡ some s')
        × (s'.history ≡ (
            if takes (slack url text told) then take kept (announced ∷ s.history) else s.history))
  unfolding each_message on_message deliver is_duplicate
  each_message-announces s value parses p new = (
    (deliver (some url) takes s r told).0,
    rw (parses, each_message) (rw (on_message, event_of_topic-append event) refl),
    elim (Bool-cases (takes (slack url text told))) [
      | inl out ↦ rw (new, record_of-announced p, routed-announced p, out) refl
      | inr stuck ↦ rw (new, record_of-announced p, routed-announced p, stuck) refl
    ],
  )
