-- ===== src/Gateway/Auth.antt =====
-- services/api-gateway/src/auth.js. The key import and the token verification are functions of
-- packages (jose), and enter as arguments.
pub mod PublicRoutes
pub mod Keys
pub mod Retries
pub mod Tokens
pub mod Roles
use aiself_healer.Common.{
  String, Bool, true, false, ◌||◌, Option, none, some, List, [], ◌∷◌, ◌==◌, if◌then◌else◌, any,
  truthy, or_else, text_or, is_some, after_prefix, ◌<>◌, join_commas,
}
use aiself_healer.JsMap
use aiself_healer.JsMap.{JsMap}

-- A regular expression of the list: `^text$`, or `^base(a|b|…)` with no end.
pub data Pattern : Type 0 where
  whole : String → Pattern
  begins : String → List String → Pattern

abbrev pub auth_base : String
auth_base = "/api/v1/auth/"

abbrev pub auth_openings : List String
auth_openings = "login" ∷ "register" ∷ "refresh" ∷ "public-key" ∷ ".well-known/jwks.json" ∷ []

abbrev pub public_routes : List Pattern
public_routes =
    whole "/health"
    ∷ whole "/ready"
    ∷ whole "/metrics"
    ∷ begins auth_base auth_openings
    ∷ whole "/api/v1/dashboard/snapshot"
    ∷ []

abbrev pub starts : String → String → Bool
starts path p = is_some (after_prefix p path)

abbrev pub test : String → Pattern → Bool
test path (whole text) = text == path
test path (begins base openings) = any (λ a. starts path (base <> a)) openings

unfoldable pub is_public_route : String → Bool
is_public_route path = any (test path) public_routes

-- The payload of a token; a claim may be missing.
pub record Claims : Type 0 where
  pub sub : Option String
  pub tenant_id : Option String
  pub roles : Option (List String)

pub record Request : Type 0 where
  pub method : String
  pub path : String
  pub ip : Option String
  -- a header that is set to `undefined` is `none`
  pub headers : JsMap (Option String)
  -- `req.cookies?.access_token`
  pub access_token : Option String
  pub user : Option Claims

-- `req.headers[name]`
abbrev pub header : String → Request → Option String
header name req = elim (JsMap.get name req.headers) [ none ↦ none | some value ↦ value ]

unfoldable pub extract_token : Request → Option String
extract_token req =
    let cookie = or_else req.access_token none in
    elim (header "authorization" req) [
      | none ↦ cookie
      | some value ↦ elim (after_prefix "Bearer " value) [ some token ↦ some token | none ↦ cookie ]
    ]

pub data Denial : Type 0 where
  missing_token : Denial
  invalid_token : String → Denial
  forbidden : List String → Denial

-- What a middleware does: `next()` with the request as it has left it, or a reply, 401 or 403.
pub data Outcome : Type 0 where
  next : Request → Outcome
  deny : Denial → Outcome

-- What `await publicKeyPromise` gives: a key, `null`, or an exception with its message.
pub data PublicKey (K : Type 0) : Type 0 where
  loaded : K → PublicKey K
  unsigned : PublicKey K
  failed : String → PublicKey K

-- What `await jwtVerify(…)` gives.
pub data Verified : Type 0 where
  payload : Claims → Verified
  rejected : String → Verified

-- The issuer and the audience that `jwtVerify` is to check, of the settings.
pub record JwtOptions : Type 0 where
  pub issuer : String
  pub audience : String

abbrev pub jwt_options : (String → Option String) → JwtOptions
jwt_options env = record {
  issuer = text_or (env "JWT_ISSUER") "neuralmesh-auth";
  audience = text_or (env "JWT_AUDIENCE") "neuralmesh";
}

abbrev pub dev_user : Claims
dev_user = record {
  sub = some "dev-user";
  tenant_id = some "tenant-demo";
  roles = some ("super_admin" ∷ []);
}

-- `claims.roles || []`
abbrev pub roles_of : Option (List String) → List String
roles_of none = []
roles_of (some roles) = roles

-- `req.user` and the three headers that the services read.
unfoldable pub accept : Request → Claims → Request
accept req claims = record req {
  user = some claims;
  headers =
      JsMap.set "x-user-roles" (some (join_commas (roles_of claims.roles)))
        (JsMap.set "x-tenant-id" claims.tenant_id (JsMap.set "x-user-id" claims.sub req.headers));
}

-- The verification comes with its options and its clock.
module _ {K : Type 0} (jwt_verify : String → K → Verified) where
  -- the body of the `try`
  unfoldable pub check_token : PublicKey K → Request → String → Outcome
  check_token (loaded key) req token = elim (jwt_verify token key) [
    | payload claims ↦ next (accept req claims)
    | rejected message ↦ deny (invalid_token message)
  ]
  check_token unsigned req token = next (record req { user = some dev_user })
  check_token (failed message) req token = deny (invalid_token message)

  unfoldable pub require_jwt : PublicKey K → Request → Outcome
  require_jwt key req = if is_public_route req.path then next req else (elim (extract_token req) [
    | none ↦ deny missing_token
    | some token ↦ if truthy (some token) then check_token key req token else deny missing_token
  ])

-- `list.includes(text)`
abbrev pub includes : List String → String → Bool
includes texts text = any (λ t. t == text) texts

abbrev pub user_roles : Option Claims → List String
user_roles none = []
user_roles (some claims) = roles_of claims.roles

unfoldable pub require_role : List String → Request → Outcome
require_role roles req =
    let mine = user_roles req.user in
    if includes mine "super_admin" || any (includes mine) roles
    then next req
    else deny (forbidden roles)
