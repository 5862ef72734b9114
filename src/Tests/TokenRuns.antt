-- ===== src/Tests/TokenRuns.antt =====
-- The token store with a Redis at small inputs.
use aiself_healer.Common.{String, ◌&&◌, not, some, [], ◌∷◌, ◌≡◌, ◌==◌, refl, if◌then◌else◌}
use aiself_healer.JsMap
use aiself_healer.JsMap.{set_has}
use aiself_healer.Gateway.MemoryRedis as Memory
use aiself_healer.Gateway.MemoryRedis.Client.{memory_client}
use aiself_healer.AuthService.TokenStore.{
  Session, TokenStore, init, found, save_refresh_token, revoke, Shared,
}
use aiself_healer.AuthService.TokenStore.Views.{view, view-save_refresh_token}
use aiself_healer.AuthService.TokenStore.Instances.{revoke_elsewhere}
use aiself_healer.Tests.Samples.{codec}

abbrev session : String → Session
session id = record { token_id = id; user_id = "user_0"; tenant_id = "t1"; expires_at = 6000 }

abbrev holding : TokenStore
holding = record { memory = ("a", session "a") ∷ []; blacklist = [] }

abbrev shared : Shared memory_client codec
shared = some Memory.init

view-save_refresh_token_example :
    view memory_client codec
      (save_refresh_token memory_client codec init shared 1000 (session "a")).0
      (save_refresh_token memory_client codec init shared 1000 (session "a")).1
      9000000
      "a"
    ≡ (if "a" == "a" && not (set_has "a" init.blacklist)
        then found (session "a")
        else view memory_client codec init shared 9000000 "a")
view-save_refresh_token_example =
    view-save_refresh_token memory_client codec init shared 1000 9000000 (session "a") "a"

revoke_elsewhere_example :
    view memory_client codec holding (revoke memory_client codec init shared 1000 "a").1 2000 "a"
    ≡ found (session "a")
revoke_elsewhere_example =
    revoke_elsewhere memory_client codec init holding shared 1000 2000 "a" (session "a")
      (unfold JsMap.get in refl) (unfold set_has in refl)
