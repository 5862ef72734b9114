-- ===== src/Notification/Spacing.antt =====
-- Sequences of alerts: those that are not suppressed, and how far apart they are.
use aiself_healer.Common.{
  ℕ, ◌+◌, ◌≤◌, ◌<◌, String, Bool, true, false, ◌&&◌, not, Option, none, some, List, [], ◌∷◌, ◌==◌,
  if◌then◌else◌, ◌≡◌, refl, arith, All, ◌∙◌, ap, Bool-cases, inl, inr, All-map, ◌↔◌,
}
use aiself_healer.JsMap
use aiself_healer.JsMap.{JsMap}
use aiself_healer.Notification.Dedupe.{Alert, alert_key, recent, is_duplicate, is_duplicate_lem}

pub record Event : Type 0 where
  pub checked : ℕ
  pub stored : ℕ
  pub alert : Alert

-- Latest first: the clock is past 0, and nothing is checked before what stands further back was
-- stored.
abbrev pub IsOrdered : List Event → Type 0
IsOrdered [] = Unit
IsOrdered (e ∷ es) =
    (0 < e.stored) × (e.checked ≤ e.stored) × All (λ d. d.stored ≤ e.checked) es × IsOrdered es

abbrev first {ℓ} : {A : Type ℓ} → List A → Option A
first [] = none
first (x ∷ xs) = some x

module _ (window : ℕ) where
  pub after : List Event → JsMap ℕ
  after [] = []
  after (e ∷ es) = (is_duplicate (after es) window e.checked e.stored e.alert).1

  -- Whether an event that follows the events is let through.
  pub passes : List Event → Event → Bool
  passes es e = not (is_duplicate (after es) window e.checked e.stored e.alert).0

  -- The times at which events of the key were let through, latest first.
  pub passed : String → List Event → List ℕ
  passed key [] = []
  passed key (e ∷ es) =
      if passes es e && alert_key e.alert == key then e.stored ∷ passed key es else passed key es

  get-after : (key : String) (es : List Event) → JsMap.get key (after es) ≡ first (passed key es)
  unfolding after passed passes
  get-after key [] = unfold JsMap.get in refl
  get-after key (e ∷ es) = ground (
    arith,
    (is_duplicate_lem (after es) window e.checked e.stored e.alert).1 key,
    get-after key es,
  )

  passed-le :
      (b : ℕ) (key : String) (es : List Event)
      → All (λ d. d.stored ≤ b) es
      → All (λ t. t ≤ b) (passed key es)
  unfolding passed
  passed-le b key [] h = tt
  passed-le b key (e ∷ es) h = elim (Bool-cases (passes es e && alert_key e.alert == key)) [
    | inl here ↦ rw here (h.0, passed-le b key es h.1)
    | inr other ↦ rw other (passed-le b key es h.1)
  ]

  -- The first of the times is after 0 and the greatest.
  abbrev IsHeaded : List ℕ → Type 0
  IsHeaded [] = Unit
  IsHeaded (t ∷ ts) = (0 < t) × All (λ u. u ≤ t) ts

  passed-IsHeaded : (key : String) (es : List Event) → IsOrdered es → IsHeaded (passed key es)
  unfolding passed
  passed-IsHeaded key [] o = tt
  passed-IsHeaded key (e ∷ es) o = elim (Bool-cases (passes es e && alert_key e.alert == key)) [
    | inl here ↦
        rw here (o.0, All-map (λ u h. omega arith) (passed key es) (passed-le e.checked key es o.2))
    | inr other ↦ rw other (passed-IsHeaded key es o.3)
  ]

  recent-All :
      (checked : ℕ) (ts : List ℕ)
      → IsHeaded ts
      → (recent window checked (first ts) ≡ false) ↔ All (λ t. t + window ≤ checked) ts
  recent-All checked [] h = (λ e. tt, λ a. refl)
  recent-All checked (t ∷ ts) h = (
    λ e. let b : t + window ≤ checked = ground arith in (b, All-map (λ u le. omega arith) ts h.1),
    λ a. ground arith,
  )

  -- In a sequence in order, an alert is let through exactly when every earlier alert of the same
  -- key that was let through was stored at least the window before: those that were suppressed do
  -- not prolong the suppression.
  pub passes_iff :
      (es : List Event) (e : Event)
      → IsOrdered es
      → (passes es e ≡ true) ↔ All (λ t. t + window ≤ e.checked) (passed (alert_key e.alert) es)
  unfolding passes
  passes_iff es e o =
      let key = alert_key e.alert in
      let (to, from) = recent-All e.checked (passed key es) (passed-IsHeaded key es o) in
      let same =
        (is_duplicate_lem (after es) window e.checked e.stored e.alert).0
        ∙ ap (recent window e.checked) (get-after key es) in
      (λ h. to (ground (arith, same)), λ a. ground (arith, same, from a))
