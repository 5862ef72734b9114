-- ===== src/Gateway/RateLimit/Spacing.antt =====
-- A caller that leaves time between its calls is let through.
use native.Mathlib.Nat.{lt_of_mul-lt-mul_right}
use aiself_healer.Common.{
  ℕ, ◌+◌, ◌-◌, ◌*◌, ◌≤◌, ◌<◌, String, true, List, [], ◌∷◌, ◌==◌, ◌≡◌, ◌∙◌, ◌⊎◌, inl, inr, refl,
  arith, ltb, le→leb, ltb→lt, ap, All, All-map, Bool-cases, if◌then◌else◌, eq_iff,
}
use aiself_healer.Gateway.RateLimit.Window.{Call, IsOrdered, requests, allows, allows-requests}

-- A call of the user is at least the gap before a time.
abbrev pub IsBefore : String → ℕ → ℕ → Call → Type 0
IsBefore user gap t d = d.user ≡ user → d.at + gap ≤ t

-- Between any two calls of the user, the latest first, there is at least the gap.
abbrev pub IsSpaced : String → ℕ → List Call → Type 0
IsSpaced user gap [] = Unit
IsSpaced user gap (c ∷ cs) =
    (c.user ≡ user → All (IsBefore user gap c.at) cs) × IsSpaced user gap cs

one_more : (r gap : ℕ) → (1 + r) * gap ≡ r * gap + gap
one_more r gap = grind arith

none_more : (r gap : ℕ) → (0 + r) * gap ≡ r * gap
none_more r gap = grind arith

-- One more call, in the window or not, some time before `now`.
call_counted :
    (r gap size now at ago : ℕ)
    → at + ago ≤ now
    → (r ≡ 0) ⊎ (r * gap + (gap + (now - at)) < size + gap)
    → (let n = (if ltb now (at + size) then 1 else 0) + r in (n ≡ 0) ⊎ (n * gap + ago < size + gap))
call_counted r gap size now at ago before few = elim (Bool-cases (ltb now (at + size))) [
  | inl within ↦ rw within (
      inr (elim few [
        | inl none_left ↦ omega (
          arith,
          ltb→lt now (at + size) within,
          one_more r gap,
          ap (λ (t : ℕ). t * gap) none_left,
        )
        | inr some_left ↦ omega (arith, one_more r gap)
      ]))
  | inr past ↦ rw past (elim few [
    | inl none_left ↦ inl (omega arith)
    | inr some_left ↦ inr (omega (arith, none_more r gap))
  ])
]

module _ (limit window gap : ℕ) (user : String) where
  -- Calls that are some time before `now` fill the window up to there at most.
  requests_spaced :
      (now ago : ℕ) (cs : List Call)
      → IsSpaced user gap cs
      → All (IsBefore user ago now) cs
      → (requests limit window now user cs ≡ 0)
        ⊎ (requests limit window now user cs * gap + ago < window * 1000 + gap)
  unfolding requests
  requests_spaced now ago [] s h = inl refl
  requests_spaced now ago (c ∷ cs) s h = elim (Bool-cases (c.user == user)) [
    | inl own ↦
        let mine : c.user ≡ user = (eq_iff c.user user).0 own in
        let rest = requests_spaced now (gap + (now - c.at)) cs s.1 (
          All-map (λ d b same. let k = b same in let k' = h.0 mine in omega arith) cs (s.0 mine)) in
        rw own (call_counted _ gap (window * 1000) now c.at ago (h.0 mine) rest)
    | inr other ↦
        let rest = requests_spaced now ago cs s.1 h.1 in
        rw other (elim rest [
          | inl none_left ↦ inl (omega (arith, none_left))
          | inr few ↦ inr (omega (arith, none_more (requests limit window now user cs) gap))
        ])
  ]

-- A caller that leaves a gap between its calls, of which as many as the limit fill the window, is
-- always let through, whoever else calls.
pub allows_spaced :
    (limit window gap : ℕ) (cs : List Call) (c : Call)
    → 0 < limit
    → window * 1000 ≤ limit * gap
    → IsOrdered (c ∷ cs)
    → IsSpaced c.user gap (c ∷ cs)
    → allows limit window cs c ≡ true
allows_spaced limit window gap cs c positive enough o s =
    allows-requests limit window cs c o
    ∙ le→leb _ _ (elim (requests_spaced limit window gap c.user c.at gap cs s.1 (s.0 refl)) [
      | inl none_left ↦ omega arith
      | inr few ↦
          let less : requests limit window c.at c.user cs < limit =
            lt_of_mul-lt-mul_right gap (omega arith) in
          omega arith
    ])
