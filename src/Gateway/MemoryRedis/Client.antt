-- ===== src/Gateway/MemoryRedis/Client.antt =====
-- The in-memory client as a Redis client.
use aiself_healer.Common.{some}
use aiself_healer.Redis.{RedisClient}
use aiself_healer.Gateway.MemoryRedis.{MemoryRedis, init, get, set, del}
use aiself_healer.Gateway.MemoryRedis.View.{view, view-init, get-view, view-set_ex, view-del}

abbrev pub memory_client : RedisClient
memory_client = record {
  State = MemoryRedis;
  empty = init;
  get = get;
  set_ex = λ r now k v ttl. (set r now k v (some "EX") (some ttl)).1;
  del = λ r k. (del r k).1;
  view = view;
  view-empty = view-init;
  get-view = λ r now k. (get-view r now k).0;
  view-get = λ r now t k j h. (get-view r now k).1 t j h;
  view-set_ex = view-set_ex;
  view-del = view-del;
}
