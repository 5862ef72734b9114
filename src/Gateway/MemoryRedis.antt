-- ===== src/Gateway/MemoryRedis.antt =====
-- services/api-gateway/src/memoryRedis.js. An operation takes the client, and the reading of
-- `Date.now()` where it makes one, and returns its reply and the client afterwards.
pub mod View
pub mod SortedSets
pub mod Client
use aiself_healer.Common.{
  ℕ, zero, suc, ◌+◌, ◌-◌, ◌*◌, String, Bool, true, false, ◌&&◌, ◌||◌, Option, none, some, List, [],
  ◌∷◌, ◌++◌, ◌==◌, if◌then◌else◌, leb, nat_eq, not, length, keep,
}
use aiself_healer.Common.Int.{ℤ, pos, ltb_ℤ}
use aiself_healer.JsMap
use aiself_healer.JsMap.{JsMap}

pub record Entry : Type 0 where
  pub value : String
  -- `null` is `none`
  pub expires_at : Option ℕ

pub record Item : Type 0 where
  pub score : ℕ
  pub member : String

pub record MemoryRedis : Type 0 where
  pub values : JsMap Entry
  pub sorted_sets : JsMap (List Item)

abbrev pub init : MemoryRedis
init = record { values = []; sorted_sets = [] }

-- `entry?.expiresAt && entry.expiresAt <= Date.now()`; 0 and `null` are falsy
abbrev pub stamp_passed : ℕ → Option ℕ → Bool
stamp_passed now none = false
stamp_passed now (some t) = not (nat_eq t 0) && leb t now

abbrev pub expired : ℕ → Option Entry → Bool
expired now none = false
expired now (some entry) = stamp_passed now entry.expires_at

abbrev pub value_of : Option Entry → Option String
value_of none = none
value_of (some entry) = some entry.value

unfoldable pub get : MemoryRedis → ℕ → String → Option String × MemoryRedis
get r now key =
    let entry = JsMap.get key r.values in
    if expired now entry
    then (none, record r { values = JsMap.delete key r.values })
    else (value_of entry, r)

-- `mode === "EX" && ttlSeconds ? Date.now() + ttlSeconds * 1000 : null`
abbrev pub expiry : ℕ → Option String → Option ℕ → Option ℕ
expiry now none ttl = none
expiry now (some mode) none = none
expiry now (some mode) (some ttl) =
    if mode == "EX" && not (nat_eq ttl 0) then some (now + ttl * 1000) else none

unfoldable pub set :
    MemoryRedis → ℕ → String → String → Option String → Option ℕ → String × MemoryRedis
set r now key value mode ttl =
    let entry : Entry = record { value = value; expires_at = expiry now mode ttl } in
    ("OK", record r { values = JsMap.set key entry r.values })

unfoldable pub setex : MemoryRedis → ℕ → String → ℕ → String → String × MemoryRedis
unfolding set
setex r now key ttl value = set r now key value (some "EX") (some ttl)

unfoldable pub del : MemoryRedis → String → ℕ × MemoryRedis
del r key = (
  1,
  record r { values = JsMap.delete key r.values; sorted_sets = JsMap.delete key r.sorted_sets },
)

-- `this.sortedSets.get(key) ?? []`
unfoldable pub items : MemoryRedis → String → List Item
items r key = elim (JsMap.get key r.sorted_sets) [ none ↦ [] | some set ↦ set ]

-- `item.score < Number(min) || item.score > Number(max)`
abbrev pub outside : ℤ → ℤ → Item → Bool
outside low high item = ltb_ℤ (pos item.score) low || ltb_ℤ high (pos item.score)

unfoldable pub zremrangebyscore : MemoryRedis → String → ℤ → ℤ → ℕ × MemoryRedis
zremrangebyscore r key low high =
    let set = items r key in
    let next = keep (outside low high) set in
    (length set - length next, record r { sorted_sets = JsMap.set key next r.sorted_sets })

unfoldable pub zadd : MemoryRedis → String → ℕ → String → ℕ × MemoryRedis
zadd r key score member =
    let item : Item = record { score = score; member = member } in
    (1, record r { sorted_sets = JsMap.set key (items r key ++ item ∷ []) r.sorted_sets })

unfoldable pub zcard : MemoryRedis → String → ℕ × MemoryRedis
zcard r key = (length (items r key), r)

unfoldable pub expire : MemoryRedis → String → ℕ → ℕ × MemoryRedis
expire r key seconds = (1, r)

-- The calls that a pipeline can queue.
pub data Op : Type 0 where
  zremrangebyscore_op : String → ℤ → ℤ → Op
  zadd_op : String → ℕ → String → Op
  zcard_op : String → Op
  expire_op : String → ℕ → Op

unfoldable pub run_op : MemoryRedis → Op → ℕ × MemoryRedis
run_op r (zremrangebyscore_op key low high) = zremrangebyscore r key low high
run_op r (zadd_op key score member) = zadd r key score member
run_op r (zcard_op key) = zcard r key
run_op r (expire_op key seconds) = expire r key seconds

-- `exec`: the queued calls in order. Each reply stands beside the `null` of its missing error.
unfoldable pub exec : MemoryRedis → List Op → List (Option String × ℕ) × MemoryRedis
exec r [] = ([], r)
exec r (op ∷ ops) =
    let (reply, r') = run_op r op in
    let (replies, r'') = exec r' ops in ((none, reply) ∷ replies, r'')
