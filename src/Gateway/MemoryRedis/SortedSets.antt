-- ===== src/Gateway/MemoryRedis/SortedSets.antt =====
-- What the sorted-set calls do to the items of each key.
use aiself_healer.Common.{
  ℕ, String, [], ◌∷◌, ◌++◌, ◌≡◌, ◌==◌, if◌then◌else◌, arith, keep, length, refl,
}
use aiself_healer.Common.Int.{ℤ}
use aiself_healer.JsMap.Laws.{get-set}
use aiself_healer.Gateway.MemoryRedis.{
  MemoryRedis, Item, items, outside, zremrangebyscore, zadd, zcard,
}

pub items-zremrangebyscore :
    (r : MemoryRedis) (k j : String) (low high : ℤ)
    → items (zremrangebyscore r k low high).1 j
      ≡ (if k == j then keep (outside low high) (items r k) else items r j)
unfolding items zremrangebyscore
items-zremrangebyscore r k j low high =
    ground (arith, get-set k j (keep (outside low high) (items r k)) r.sorted_sets)

pub items-zadd :
    (r : MemoryRedis) (k j : String) (score : ℕ) (member : String)
    → items (zadd r k score member).1 j
      ≡ (if k == j then items r k ++ record { score = score; member = member } ∷ [] else items r j)
unfolding items zadd
items-zadd r k j score member =
    let item : Item = record { score = score; member = member } in
    ground (arith, get-set k j (items r k ++ item ∷ []) r.sorted_sets)

pub zcard_lem : (r : MemoryRedis) (k : String) → zcard r k ≡ (length (items r k), r)
unfolding zcard
zcard_lem r k = refl
