-- ===== src/Tests/GatewayRuns.antt =====
-- The gateway's limiter, token check and key loading at small inputs.
use aiself_healer.Common.{
  ℕ, ◌+◌, ◌≤◌, ◌<◌, String, true, false, none, some, List, [], ◌∷◌, ◌≡◌, ◌↔◌, ◌==◌, refl, arith,
  if◌then◌else◌, nat_eq,
}
use aiself_healer.JsMap
use aiself_healer.Gateway.MemoryRedis as Memory
use aiself_healer.Gateway.MemoryRedis.{MemoryRedis, init}
use aiself_healer.Gateway.RateLimit.{check_rate_limit, rate_key}
use aiself_healer.Gateway.RateLimit.Window.{Call, after, allows, granted, granted-le-limit}
use aiself_healer.Gateway.Auth.{
  Claims, Request, next, loaded, Verified, payload, rejected, accept, require_jwt, is_public_route,
}
use aiself_healer.Gateway.Auth.PublicRoutes.{IsOpen, is_public_route_iff}
use aiself_healer.Gateway.Auth.Tokens.{Passes, require_jwt_iff}
use aiself_healer.Gateway.Auth.Keys.{KeyEnv, Fetched, ok, refused, Failed}

abbrev three_calls : List Call
three_calls =
    record { at = 3000; user = "a"; member = "m" }
    ∷ record { at = 2000; user = "a"; member = "m" }
    ∷ record { at = 1000; user = "b"; member = "m" }
    ∷ []

abbrev fourth : Call
fourth = record { at = 4000; user = "a"; member = "m" }

granted-le-limit_example : granted 1 60 500 "a" three_calls ≤ 1
granted-le-limit_example = granted-le-limit 1 60 500 "a" three_calls (omega arith)

-- The third call of one user in a window of two is refused; the other user's call does not count.
limiter_refuses : (allows 2 60 three_calls fourth ≡ false) × (allows 3 60 three_calls fourth ≡ true)
unfolding allows after check_rate_limit Memory.exec Memory.run_op Memory.zremrangebyscore
    Memory.zadd Memory.zcard Memory.expire Memory.items JsMap.get JsMap.set rate_key
limiter_refuses = (refl, refl)

is_public_route_iff_example :
    (is_public_route "/api/v1/auth/loginx" ≡ true) ↔ IsOpen "/api/v1/auth/loginx"
is_public_route_iff_example = is_public_route_iff "/api/v1/auth/loginx"

abbrev alice : Claims
alice = record { sub = some "alice"; tenant_id = some "t1"; roles = some ("operator" ∷ []) }

abbrev asks : Request
asks = record {
  method = "GET";
  path = "/api/v1/users";
  ip = some "10.0.0.1";
  headers = ("authorization", some "Bearer good") ∷ ("x-tenant-id", some "stolen") ∷ [];
  access_token = none;
  user = none;
}

abbrev verify_good : String → String → Verified
verify_good token k = if token == "good" then payload alice else rejected "bad signature"

require_jwt_iff_example :
    (require_jwt verify_good (loaded "key") asks ≡ next (accept asks alice))
    ↔ Passes verify_good (loaded "key") asks (accept asks alice)
require_jwt_iff_example = require_jwt_iff verify_good (loaded "key") asks (accept asks alice)

abbrev third_time : String → ℕ → Fetched
third_time url attempt = if nat_eq attempt 2 then ok "pem" else refused

first_two_fail : (i : ℕ) → i < 2 → Failed (third_time "u" (0 + i))
first_two_fail i h = ground arith

abbrev in_development : KeyEnv
in_development = record {
  inline = none;
  path = none;
  url = none;
  has_fetch = true;
  is_test = false;
  allow_unsigned = true;
}
