-- ===== src/Tests/RoutingRuns.antt =====
-- The gateway's chain of middleware and its table of routes at a few requests.

use aiself_healer.Common.{
  ℕ, zero, suc, String, false, ◌&&◌, Option, none, some, List, [], ◌∷◌, ◌≡◌, ◌==◌, refl,
  if◌then◌else◌, is_empty, length, after_prefix,
}
use aiself_healer.JsMap
use aiself_healer.JsMap.{JsMap}
use aiself_healer.Gateway.MemoryRedis as Memory
use aiself_healer.Gateway.MemoryRedis.{init}
use aiself_healer.Gateway.RateLimit.{rate_limit_middleware, check_rate_limit, rate_key}
use aiself_healer.Gateway.Auth.{
  Claims, Request, loaded, Verified, payload, rejected, require_jwt, require_role, is_public_route,
  extract_token, accept, check_token,
}
use aiself_healer.Gateway.Routing.{Route, get_routes}
use aiself_healer.Gateway.Server.{
  Config, Readings, updated, routes, handle, limited, dispatch, put_routes, list_routes,
}
use aiself_healer.Gateway.Server.Proxied.{handle-Passes}
use aiself_healer.Gateway.Auth.Tokens.{Passes}
use aiself_healer.Gateway.Server.{proxied, proxy_or_404}
use aiself_healer.Gateway.Routing.{path_rewrite}
use aiself_healer.Gateway.Server.Table.{IsAdmin, Effect, handle-Effect}
use aiself_healer.Gateway.Server.Listing.{Input, respond, serve}
use aiself_healer.Tests.Samples.{
  encode_text, decode_text, decode-encode_text, encode_nat, decode_nat, decode-encode_nat, ◌>>=◌,
}

abbrev text_of : Option String → String
text_of none = ""
text_of (some s) = String.◌∷◌ "1" s

abbrev option_of : String → Option String
option_of String.[] = none
option_of (String.◌∷◌ c s) = some s

option_of-text_of : (o : Option String) → option_of (text_of o) ≡ o
option_of-text_of none = refl
option_of-text_of (some s) = refl

encode_items : List Route → String
encode_items [] = ""
encode_items (r ∷ rs) =
    encode_text r.prefix (encode_text r.target (encode_text (text_of r.prepend) (encode_items rs)))

decode_items : ℕ → String → Option (List Route)
decode_items zero s = some []
decode_items (suc n) s = do
  (prefix, r₁) ← decode_text s
  (target, r₂) ← decode_text r₁
  (prepend, r₃) ← decode_text r₂
  rest ← decode_items n r₃
  some (record { prefix = prefix; target = target; prepend = option_of prepend } ∷ rest)

decode-encode_items : (rs : List Route) → decode_items (length rs) (encode_items rs) ≡ some rs
unfolding decode_items encode_items
decode-encode_items [] = refl
decode-encode_items (r ∷ rs) = rw decode-encode_text (
    rw decode-encode_text
      (rw decode-encode_text (rw (decode-encode_items rs) (rw (option_of-text_of r.prepend) refl))))

pub encode : List Route → String
encode rs = encode_nat (length rs) (encode_items rs)

pub decode : String → Option (List Route)
decode raw = do (n, r) ← decode_nat raw; decode_items n r

pub decode-encode : (rs : List Route) → decode (encode rs) ≡ some rs
unfolding decode encode
decode-encode rs = rw decode-encode_nat (decode-encode_items rs)

encode_nat-filled : (n : ℕ) (rest : String) → is_empty (encode_nat n rest) ≡ false
unfolding encode_nat
encode_nat-filled zero rest = refl
encode_nat-filled (suc n) rest = refl

pub encode-filled : (rs : List Route) → is_empty (encode rs) ≡ false
unfolding encode
encode-filled rs = encode_nat-filled (length rs) (encode_items rs)

abbrev admin : Claims
admin = record { sub = some "root"; tenant_id = some "t1"; roles = some ("super_admin" ∷ []) }

abbrev pub operator : Claims
operator = record { sub = some "op"; tenant_id = none; roles = some ("operator" ∷ []) }

abbrev pub verify : String → String → Verified
verify token key =
    if token == "root"
    then payload admin
    else if token == "op"
    then payload operator
    else rejected "bad"

abbrev pub config : Config
config = record {
  Key = String;
  jwt_verify = λ options now. verify;
  key = loaded "key";
  json = record {
    encode = encode;
    decode = decode;
    decode-encode = decode-encode;
    encode-filled = encode-filled;
  };
  env = λ setting. none;
  per_minute = none;
  answers = λ m p method path. m == method && p == path;
  mounted = λ prefix path. none;
  attached = [];
}

abbrev pub readings : ℕ → Readings
readings t = record {
  request_uuid = "r";
  verified_at = t;
  limited_at = t;
  nonce = "n";
  routes_at = t;
}

abbrev pub asks : String → String → Request
asks method token = record {
  method = method;
  path = "/api/v1/routes";
  ip = none;
  headers = [];
  access_token = some token;
  user = none;
}

abbrev pub one_route : List Route
one_route = record { prefix = "/x"; target = "http://x"; prepend = none } ∷ []

handle-Effect_example :
    Effect config init
      (readings 1000)
      (IsAdmin config (readings 1000) (asks "PUT" "root"))
      (handle config init (readings 1000) (asks "PUT" "root") (some one_route))
handle-Effect_example =
    handle-Effect config init (readings 1000) (asks "PUT" "root") (some one_route)

abbrev pub puts : Input
puts = record { readings = readings 1000; request = asks "PUT" "root"; body = some one_route }

abbrev lists : Input
lists = record { readings = readings 9000; request = asks "GET" "op"; body = none }

pub done : (respond config init puts).1 ≡ updated one_route
unfolding handle limited dispatch put_routes require_jwt require_role is_public_route extract_token
    accept rate_limit_middleware check_rate_limit Memory.exec Memory.run_op Memory.zremrangebyscore
    Memory.zadd Memory.zcard Memory.expire Memory.items JsMap.get JsMap.set after_prefix check_token
    rate_key
done = refl

answered :
    (respond config (serve config (respond config init puts).0 []) lists).1 ≡ routes one_route
unfolding handle limited dispatch put_routes require_jwt require_role is_public_route extract_token
    accept rate_limit_middleware check_rate_limit Memory.exec Memory.run_op Memory.zremrangebyscore
    Memory.zadd Memory.zcard Memory.expire Memory.items JsMap.get JsMap.set after_prefix check_token
    rate_key encode encode_nat decode decode_nat encode_text decode_text encode_items decode_items
    list_routes get_routes Memory.get Memory.set serve
answered = refl

abbrev pub proxying : Config
proxying = record config {
  mounted = λ prefix path. if prefix == path then some "/" else none;
  attached = one_route;
}

abbrev pub reads_x : Request
reads_x = record (asks "GET" "op") { path = "/x" }

pub handed_on :
    (handle proxying init (readings 1000) reads_x none).1
    ≡ proxied "http://x" "/" "r" (accept reads_x operator)
unfolding handle limited dispatch proxy_or_404 path_rewrite require_jwt is_public_route
    extract_token accept rate_limit_middleware check_rate_limit Memory.exec Memory.run_op
    Memory.zremrangebyscore Memory.zadd Memory.zcard Memory.expire Memory.items JsMap.get JsMap.set
    after_prefix check_token rate_key
handed_on = refl

handle-Passes_example : Passes verify (loaded "key") reads_x (accept reads_x operator)
handle-Passes_example =
    handle-Passes proxying init (readings 1000) reads_x (accept reads_x operator) none "http://x"
      "/" "r" handed_on
