-- ===== src/Redis.antt =====
-- What the services rely on of a Redis client: `get`, `set` with "EX" and `del` over a state, and
-- the value that each key holds at each time. The client itself is a package (ioredis) or the
-- gateway's in-memory one.
use aiself_healer.Common.{
  ℕ, ◌+◌, ◌*◌, ◌≤◌, ◌<◌, String, Option, none, some, ◌≡◌, ◌==◌, if◌then◌else◌, ltb,
}

pub record RedisClient : Type 1 where
  pub State : Type 0
  pub empty : State
  pub get : State → ℕ → String → Option String × State
  pub set_ex : State → ℕ → String → String → ℕ → State
  pub del : State → String → State
  -- the value of a key at a time, in milliseconds
  pub view : State → ℕ → String → Option String
  pub view-empty : (t : ℕ) (k : String) → view empty t k ≡ none
  pub get-view : (s : State) (now : ℕ) (k : String) → (get s now k).0 ≡ view s now k
  pub view-get :
      (s : State) (now t : ℕ) (k j : String) → now ≤ t → view (get s now k).1 t j ≡ view s t j
  pub view-set_ex :
      (s : State) (now t : ℕ) (k j v : String) (ttl : ℕ)
      → 0 < ttl
      → view (set_ex s now k v ttl) t j
        ≡ (if k == j then (if ltb t (now + ttl * 1000) then some v else none) else view s t j)
  pub view-del :
      (s : State) (t : ℕ) (k j : String)
      → view (del s k) t j ≡ (if k == j then none else view s t j)
