-- ===== src/Gateway/RateLimit/Window.antt =====
-- The limiter over a history of calls, newest first: what it counts, and what it lets through.
use text.Mathlib.TextLemmas.{append_cancel_left}
use aiself_healer.Common.{
  ℕ, ◌+◌, ◌*◌, ◌≤◌, String, Bool, ◌&&◌, List, [], ◌∷◌, ◌++◌, ◌≡◌, ◌==◌, if◌then◌else◌, ltb, leb,
  arith, length, keep, eq_iff, refl, ap, All, Bool-cases, inl, inr, ◌∙◌,
}
use aiself_healer.JsMap
use aiself_healer.Gateway.MemoryRedis.{MemoryRedis, Item, init, items}
use aiself_healer.Gateway.RateLimit.{rate_key, check_rate_limit}
use aiself_healer.Gateway.RateLimit.Laws.{
  in_window, recent, items-check_rate_limit, check_rate_limit_lem,
}

pub record Call : Type 0 where
  pub at : ℕ
  pub user : String
  pub member : String

-- No call was made before one that stands further back.
abbrev pub IsOrdered : List Call → Type 0
IsOrdered [] = Unit
IsOrdered (c ∷ cs) = All (λ d. d.at ≤ c.at) cs × IsOrdered cs

module _ (limit window : ℕ) where
  -- The client after the calls, from an empty one.
  unfoldable pub after : List Call → MemoryRedis
  after [] = init
  after (c ∷ cs) = (check_rate_limit (after cs) c.at c.member c.user limit window).1

  -- Whether a call that follows the calls is allowed.
  unfoldable pub allows : List Call → Call → Bool
  allows cs c = (check_rate_limit (after cs) c.at c.member c.user limit window).0.allowed

  -- The user's calls in the window that ends at `now`, allowed or not.
  unfoldable pub requests : ℕ → String → List Call → ℕ
  requests now user [] = 0
  requests now user (c ∷ cs) =
      (if c.user == user && ltb now (c.at + window * 1000) then 1 else 0) + requests now user cs

  -- The user's allowed calls after `start`, up to and including the window's length later.
  unfoldable pub granted : ℕ → String → List Call → ℕ
  granted start user [] = 0
  granted start user (c ∷ cs) =
      (if c.user == user && ltb start c.at && leb c.at (start + window * 1000) && allows cs c
        then 1
        else 0)
      + granted start user cs

  granted-le-requests :
      (start now : ℕ) (user : String) (cs : List Call)
      → now ≤ start + window * 1000
      → granted start user cs ≤ requests now user cs
  unfolding granted requests
  granted-le-requests start now user [] h = omega arith
  granted-le-requests start now user (c ∷ cs) h =
      ground (arith, granted-le-requests start now user cs h)

keep-keep :
    (window now later : ℕ) (xs : List Item)
    → now ≤ later
    → keep (in_window later window) (keep (in_window now window) xs)
      ≡ keep (in_window later window) xs
keep-keep window now later [] h = refl
keep-keep window now later (x ∷ xs) h = ground (arith, keep-keep window now later xs h)

length-keep-append :
    (p : Item → Bool) (xs : List Item) (y : Item)
    → length (keep p (xs ++ y ∷ [])) ≡ length (keep p xs) + (if p y then 1 else 0)
length-keep-append p [] y = ground arith
length-keep-append p (x ∷ xs) y = ground (arith, length-keep-append p xs y)

rate_key-eq : (s t : String) → (rate_key s == rate_key t) ≡ (s == t)
unfolding rate_key
rate_key-eq s t = elim (Bool-cases (s == t)) [
  | inl same ↦ rw same ((eq_iff _ _).1 (ap rate_key ((eq_iff s t).0 same)))
  | inr other ↦ ground (
    arith,
    eq_iff s t,
    eq_iff (rate_key s) (rate_key t),
    λ (e : rate_key s ≡ rate_key t). append_cancel_left "rate:" s t e,
  )
]

-- The items of a user in the window that ends at a time are as many as the user's calls there,
-- whatever the limit was and whoever else called, if the calls came in order, none of them later.
pub recent-requests :
    (limit window now : ℕ) (user : String) (cs : List Call)
    → All (λ d. d.at ≤ now) cs
    → IsOrdered cs
    → length (recent (after limit window cs) now user window) ≡ requests limit window now user cs
unfolding after requests
recent-requests limit window now user [] h o = unfold items JsMap.get in refl
recent-requests limit window now user (c ∷ cs) h o =
    let ih = recent-requests limit window now user cs h.1 o.1 in
    rw (items-check_rate_limit (after limit window cs) c.at c.member c.user limit window) (
      rw (rate_key-eq c.user user) (elim (Bool-cases (c.user == user)) [
        | inl same ↦
            rw (same, (eq_iff c.user user).0 same)
              (rw length-keep-append (
                rw (keep-keep window c.at now (items (after limit window cs) (rate_key user)) h.0)
                  (ground (arith, ih))))
        | inr other ↦ rw (other) (ground (arith, ih))
      ]))

-- A call that is no earlier than those before it is allowed exactly when the user's calls in its
-- window, itself included, are at most the limit; no call of another user counts.
pub allows-requests :
    (limit window : ℕ) (cs : List Call) (c : Call)
    → IsOrdered (c ∷ cs)
    → allows limit window cs c ≡ leb (requests limit window c.at c.user cs + 1) limit
unfolding allows
allows-requests limit window cs c o =
    (check_rate_limit_lem (after limit window cs) c.at c.member c.user limit window).0
    ∙ ap (λ n. leb (n + 1) limit) (recent-requests limit window c.at c.user cs o.0 o.1)

-- In a history in order, a user is never let through more often than the limit in any window of
-- the configured length, wherever it starts.
pub granted-le-limit :
    (limit window start : ℕ) (user : String) (cs : List Call)
    → IsOrdered cs
    → granted limit window start user cs ≤ limit
unfolding granted
granted-le-limit limit window start user [] o = omega arith
granted-le-limit limit window start user (c ∷ cs) o = ground (
  arith,
  granted-le-limit limit window start user cs o.1,
  allows-requests limit window cs c o,
  granted-le-requests limit window start c.at user cs,
  eq_iff c.user user,
)
