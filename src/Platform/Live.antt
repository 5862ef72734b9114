-- ===== src/Platform/Live.antt =====
-- From Kafka through the gateway's hub to the dashboard: which messages a dashboard shows.
use aiself_healer.Common.{
  String, Bool, true, false, Option, none, some, List, [], ◌∷◌, Memᴰ, ◌≡◌, ◌∙◌, refl, ap, arith,
  any, every, every-mem, not, take, text_or, ◌==◌, if◌then◌else◌, remove_first, All, Option-cases,
  inl, inr, after_prefix,
}
use aiself_healer.Gateway.SocketHub.{dashboard_topics, each_message}
use aiself_healer.Frontend.Realtime.{
  Slice, anomalies, healing, scaling, health, chaos, slice_of, in_slice, shown, Message, event,
  after, events_of, after-take,
}

-- the topics whose messages a slice shows
abbrev pub topics_of : Slice → List String
topics_of anomalies = "neuralmesh.anomaly.detected" ∷ []
topics_of healing = "neuralmesh.healing.started" ∷ "neuralmesh.healing.complete" ∷ []
topics_of scaling = "neuralmesh.scale.event" ∷ []
topics_of health = "neuralmesh.service.health" ∷ []
topics_of chaos = "neuralmesh.chaos.started" ∷ "neuralmesh.chaos.completed" ∷ []

-- A message that Kafka delivers, maybe again: its topic and its value. Where the value does not parse
-- the handler throws and emits nothing.
pub record Delivery : Type 0 where
  pub topic : String
  pub value : Option String

module _ {E : Type 0} (parse : String → Option E) where
  -- what a connected dashboard receives of deliveries, the latest first
  pub received : List Delivery → List (Message E)
  received [] = []
  received (d ∷ ds) = elim (each_message parse d.topic d.value) [
    | none ↦ received ds
    | some (name, payload) ↦ event name payload ∷ received ds
  ]

  -- the payloads of the deliveries of some topics, where they parse
  unfoldable pub payloads : List String → List Delivery → List E
  payloads topics [] = []
  payloads topics (d ∷ ds) =
      let earlier = payloads topics ds in
      if any (λ topic. topic == d.topic) topics
      then (elim (parse (text_or d.value "{}")) [
        | none ↦ earlier
        | some payload ↦ payload ∷ earlier
      ])
      else earlier

abbrev goes_to : Slice → String → Bool
goes_to key topic = any (λ t. t == topic) (topics_of key)

abbrev goes_by_name : Slice → String → Bool
goes_by_name key topic = in_slice key (slice_of (remove_first "neuralmesh." topic))

abbrev same_bool : Bool → Bool → Bool
same_bool true b = b
same_bool false b = not b

every_topic :
    (key : Slice)
    → every (λ topic. same_bool (goes_by_name key topic) (goes_to key topic)) dashboard_topics
      ≡ true
unfolding slice_of remove_first after_prefix
every_topic anomalies = refl
every_topic healing = refl
every_topic scaling = refl
every_topic health = refl
every_topic chaos = refl

-- The name that the hub makes of a topic leads to the slice of that topic.
topic_slice :
    (key : Slice) (topic : String)
    → Memᴰ topic dashboard_topics
    → goes_by_name key topic ≡ goes_to key topic
topic_slice key topic m =
    let holds =
      every-mem (λ t. same_bool (goes_by_name key t) (goes_to key t)) dashboard_topics
        (every_topic key) m in
    ground (arith, holds)

module _ {E : Type 0} (parse : String → Option E) where
  events_of-received :
      (key : Slice) (ds : List Delivery)
      → All (λ d. Memᴰ d.topic dashboard_topics) ds
      → events_of E key (received parse ds) ≡ payloads parse (topics_of key) ds
  unfolding received payloads each_message
  events_of-received key [] h = refl
  events_of-received key (d ∷ ds) h = elim (Option-cases (parse (text_or d.value "{}"))) [
    | inl broken ↦ rw (broken, received, payloads) (ground (arith, events_of-received key ds h.1))
    | inr (payload, parsed) ↦
        rw (parsed, received, payloads)
          (ground (arith, topic_slice key d.topic h.0, events_of-received key ds h.1))
  ]

  -- Of the messages that Kafka delivers on the hub's topics, a dashboard that is connected
  -- throughout shows in each table the latest hundred of that table's topics whose value parses,
  -- the latest first; the messages on sent notifications are shown in none.
  pub received-shown :
      (key : Slice) (ds : List Delivery)
      → All (λ d. Memᴰ d.topic dashboard_topics) ds
      → (after E (received parse ds)).slices key ≡ take shown (payloads parse (topics_of key) ds)
  received-shown key ds h =
      (after-take E (received parse ds)).0 key ∙ ap (take shown) (events_of-received key ds h)
