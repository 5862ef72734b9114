-- ===== src/Gateway/MemoryRedis/View.antt =====
-- The values that the in-memory client holds at each time, and what its operations do to them.
use aiself_healer.Common.{
  ℕ, ◌+◌, ◌*◌, ◌≤◌, ◌<◌, String, Option, none, some, ◌≡◌, ◌==◌, if◌then◌else◌, ltb, arith, eq_iff,
  refl,
}
use aiself_healer.JsMap
use aiself_healer.JsMap.Laws.{get-set, get-delete}
use aiself_healer.Gateway.MemoryRedis.{
  MemoryRedis, init, Entry, expired, value_of, stamp_passed, expiry, get, set, del,
}

-- The value of a key at a time, read off the map with no change of it.
unfoldable pub view : MemoryRedis → ℕ → String → Option String
view r t key =
    let entry = JsMap.get key r.values in if expired t entry then none else value_of entry

-- An empty client holds no value.
pub view-init : (t : ℕ) (k : String) → view init t k ≡ none
unfolding view JsMap.get
view-init t k = refl

-- A `get` answers with the value that the key has at that time, and changes what no key holds
-- at that time or later: removing an expired entry shows nowhere.
pub get-view :
    (r : MemoryRedis) (now : ℕ) (k : String)
    → ((get r now k).0 ≡ view r now k)
      × ((t : ℕ) (j : String) → now ≤ t → view (get r now k).1 t j ≡ view r t j)
unfolding get view
get-view r now k = (ground arith, λ t j h. ground (arith, get-delete k j r.values, eq_iff k j))

-- After any `set` the key has the value for as long as the expiry written with it has not passed,
-- and every other key is as before.
pub view-set :
    (r : MemoryRedis) (now t : ℕ) (k j v : String) (mode : Option String) (ttl : Option ℕ)
    → view (set r now k v mode ttl).1 t j ≡ (
        if k == j
        then (if stamp_passed t (expiry now mode ttl) then none else some v)
        else view r t j)
unfolding set view
view-set r now t k j v mode ttl =
    let entry : Entry = record { value = v; expires_at = expiry now mode ttl } in
    ground (arith, get-set k j entry r.values)

-- After a `set` with "EX" the key has the value until `ttl` seconds have passed, and none from
-- then on; every other key is as before.
pub view-set_ex :
    (r : MemoryRedis) (now t : ℕ) (k j v : String) (ttl : ℕ)
    → 0 < ttl
    → view (set r now k v (some "EX") (some ttl)).1 t j
      ≡ (if k == j then (if ltb t (now + ttl * 1000) then some v else none) else view r t j)
view-set_ex r now t k j v ttl h = ground (arith, view-set r now t k j v (some "EX") (some ttl))

-- After a `del` the key has no value at any time, and every other key is as before.
pub view-del :
    (r : MemoryRedis) (t : ℕ) (k j : String)
    → view (del r k).1 t j ≡ (if k == j then none else view r t j)
unfolding del view
view-del r t k j = ground (arith, get-delete k j r.values)
