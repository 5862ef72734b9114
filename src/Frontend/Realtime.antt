-- ===== src/Frontend/Realtime.antt =====
-- frontend/src/hooks/useRealtime.js: the store of live events, and the handlers of the socket.
use aiself_healer.Common.{
  ℕ, String, Bool, true, false, Option, none, some, List, [], ◌∷◌, ◌==◌, if◌then◌else◌, ◌≡◌, refl,
  arith, take, take-cons-take, Option-cases, inl, inr,
}

pub data Slice : Type 0 where
  anomalies healing scaling health chaos : Slice

abbrev same_slice : Slice → Slice → Bool
same_slice anomalies anomalies = true
same_slice healing healing = true
same_slice scaling scaling = true
same_slice health health = true
same_slice chaos chaos = true
same_slice _ _ = false

abbrev pub in_slice : Slice → Option Slice → Bool
in_slice key none = false
in_slice key (some other) = same_slice other key

-- the slice that the handler of an event's name pushes to
unfoldable pub slice_of : String → Option Slice
slice_of name =
    if name == "anomaly.detected"
    then some anomalies
    else if name == "healing.started"
    then some healing
    else if name == "healing.complete"
    then some healing
    else if name == "scale.event"
    then some scaling
    else if name == "service.health"
    then some health
    else if name == "chaos.started"
    then some chaos
    else if name == "chaos.completed"
    then some chaos
    else none

abbrev pub shown : ℕ
shown = 100

module _ {E : Type 0} where
  abbrev pub push_onto : E → List E → List E
  push_onto event events = take shown (event ∷ events)

module _ (E : Type 0) where
  pub record Store : Type 0 where
    pub slices : Slice → List E
    pub connected : Bool

  -- What the socket tells: it is connected or not, or an event of a name.
  pub data Message : Type 0 where
    connect : Message
    disconnect : Message
    event : String → E → Message

  abbrev pub init : Store
  init = record { slices = λ key. []; connected = false }

  -- `set((state) => ({ [key]: [event, ...state[key]].slice(0, 100) }))`
  unfoldable pub push : Slice → E → Store → Store
  push key e store = record store {
    slices = λ other.
        if same_slice key other then push_onto e (store.slices other) else store.slices other;
  }

  unfoldable pub receive : Store → Message → Store
  receive store connect = record store { connected = true }
  receive store disconnect = record store { connected = false }
  receive store (event name e) = elim (slice_of name) [ none ↦ store | some key ↦ push key e store ]

  -- the store after messages, the latest first
  pub after : List Message → Store
  after [] = init
  after (m ∷ ms) = receive (after ms) m

  -- the events of a slice among messages
  abbrev pub events_of : Slice → List Message → List E
  events_of key [] = []
  events_of key (connect ∷ ms) = events_of key ms
  events_of key (disconnect ∷ ms) = events_of key ms
  events_of key (event name e ∷ ms) =
      if in_slice key (slice_of name) then e ∷ events_of key ms else events_of key ms

  -- whether the latest word on the connection is that it stands
  abbrev pub is_connected : List Message → Bool
  is_connected [] = false
  is_connected (connect ∷ ms) = true
  is_connected (disconnect ∷ ms) = false
  is_connected (event name e ∷ ms) = is_connected ms

  push_onto-take : (e : E) (xs : List E) → push_onto e (take shown xs) ≡ push_onto e xs
  push_onto-take e xs = take-cons-take shown e xs

  -- After any messages each slice shows the latest hundred events of its names, the latest first,
  -- and the connection is as the latest message on it says.
  pub after-take :
      (ms : List Message)
      → ((key : Slice) → (after ms).slices key ≡ take shown (events_of key ms))
        × ((after ms).connected ≡ is_connected ms)
  unfolding after receive push
  after-take [] = (λ key. refl, refl)
  after-take (connect ∷ ms) = ((after-take ms).0, refl)
  after-take (disconnect ∷ ms) = ((after-take ms).0, refl)
  after-take (event name e ∷ ms) =
      let (slices, connected) = after-take ms in
      elim (Option-cases (slice_of name)) [
        | inl other ↦ rw (other, receive) (slices, connected)
        | inr (to, own) ↦
            rw (own, receive)
              (λ key. ground (arith, slices key, push_onto-take e (events_of key ms)), connected)
      ]
