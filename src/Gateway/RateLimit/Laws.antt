-- ===== src/Gateway/RateLimit/Laws.antt =====
-- One call of the limiter: what it answers, and the items that it leaves.
use aiself_healer.Common.{
  ℕ, ◌+◌, ◌-◌, ◌*◌, ◌/◌, String, Bool, List, [], ◌∷◌, ◌++◌, ◌≡◌, ◌==◌, if◌then◌else◌, ltb, leb,
  arith, length, keep, eq_refl, refl, length-append, ap, ◌∙◌,
}
use aiself_healer.Common.Int.{pos, sub_ℕ}
use aiself_healer.Gateway.MemoryRedis.{
  MemoryRedis, Item, items, outside, exec, run_op, zremrangebyscore, zadd, zcard, expire,
}
use aiself_healer.Gateway.MemoryRedis.SortedSets.{items-zremrangebyscore, items-zadd}
use aiself_healer.Gateway.RateLimit.{rate_key, check_rate_limit}

-- An item lies in the window of `window` seconds that ends at `now`.
abbrev pub in_window : ℕ → ℕ → Item → Bool
in_window now window item = ltb now (item.score + window * 1000)

outside-in_window :
    (now window : ℕ) (item : Item)
    → outside (pos 0) (sub_ℕ now (window * 1000)) item ≡ in_window now window item
outside-in_window now window item = ground arith

keep_ext {ℓ} :
    {A : Type ℓ} (p q : A → Bool) (e : (a : A) → p a ≡ q a) (xs : List A) → keep p xs ≡ keep q xs
keep_ext p q e [] = refl
keep_ext p q e (x ∷ xs) = rw (e x, keep_ext p q e xs)

-- The items of a user that lie in the window of a call.
abbrev pub recent : MemoryRedis → ℕ → String → ℕ → List Item
recent r now user window = keep (in_window now window) (items r (rate_key user))

keep-recent :
    (r : MemoryRedis) (now : ℕ) (user : String) (window : ℕ)
    → keep (outside (pos 0) (sub_ℕ now (window * 1000))) (items r (rate_key user))
      ≡ recent r now user window
keep-recent r now user window =
    keep_ext _ _ (outside-in_window now window) (items r (rate_key user))

module _ (r : MemoryRedis) (now : ℕ) (member user : String) (limit window : ℕ) where
  abbrev own : Item
  own = record { score = now; member = member }

  -- The client after the first two calls of the pipeline.
  abbrev pruned : MemoryRedis
  pruned = (zremrangebyscore r (rate_key user) (pos 0) (sub_ℕ now (window * 1000))).1

  abbrev added : MemoryRedis
  added = (zadd pruned (rate_key user) now member).1

  items-added :
      (key : String)
      → items added key
        ≡ (if rate_key user == key then recent r now user window ++ own ∷ [] else items r key)
  items-added key = ground (
    arith,
    items-zadd pruned (rate_key user) key now member,
    items-zremrangebyscore r (rate_key user) key (pos 0) (sub_ℕ now (window * 1000)),
    items-zremrangebyscore r (rate_key user) (rate_key user) (pos 0) (sub_ℕ now (window * 1000)),
    keep-recent r now user window,
    eq_refl (rate_key user),
  )

  check_rate_limit-added : check_rate_limit r now member user limit window ≡ (
    record {
      allowed = leb (length (items added (rate_key user))) limit;
      remaining = limit - length (items added (rate_key user));
      reset = (now + window * 1000 + 999) / 1000;
    },
    added,
  )
  unfolding check_rate_limit exec run_op zcard expire
  check_rate_limit-added = refl

  length-added : length (items added (rate_key user)) ≡ length (recent r now user window) + 1
  length-added =
      ap length (items-added (rate_key user) ∙ (rw (eq_refl (rate_key user))))
      ∙ length-append (recent r now user window) (own ∷ [])

  -- The call's own item joins those of the user that are in the window; another key's items stay.
  pub items-check_rate_limit :
      (key : String)
      → items (check_rate_limit r now member user limit window).1 key
        ≡ (if rate_key user == key then recent r now user window ++ own ∷ [] else items r key)
  items-check_rate_limit key = rw check_rate_limit-added (items-added key)

  -- The answer is read off the number of the user's items in the window, the call's own included:
  -- allowed when that number is at most the limit, with the rest of the limit as what remains, and
  -- the end of the window, rounded up to seconds, as the reset.
  pub check_rate_limit_lem :
      ((check_rate_limit r now member user limit window).0.allowed
        ≡ leb (length (recent r now user window) + 1) limit)
      × ((check_rate_limit r now member user limit window).0.remaining
          ≡ limit - (length (recent r now user window) + 1))
      × ((check_rate_limit r now member user limit window).0.reset
          ≡ (now + window * 1000 + 999) / 1000)
  check_rate_limit_lem = rw check_rate_limit-added (rw length-added (refl, refl, refl))
