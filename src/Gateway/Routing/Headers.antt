-- ===== src/Gateway/Routing/Headers.antt =====
-- The headers that a proxied request carries.
use aiself_healer.Common.{
  String, Option, none, some, true, false, ◌≡◌, ◌==◌, refl, arith, eq_iff, if◌then◌else◌, or_else,
  join_commas, Option-cases, inl, inr,
}
use aiself_healer.JsMap
use aiself_healer.JsMap.{JsMap}
use aiself_healer.JsMap.Laws.{get-set}
use aiself_healer.Gateway.Auth.{Claims}
use aiself_healer.Gateway.Routing.{set_header, set_roles, sub_of, tenant_of, proxy_req}

get-set_header :
    (name : String) (value : Option String) (headers : JsMap String) (j : String)
    → JsMap.get j (set_header name value headers)
      ≡ (if name == j then or_else value (JsMap.get j headers) else JsMap.get j headers)
get-set_header name none headers j = ground arith
get-set_header name (some value) headers j = ground (arith, get-set name j value headers)

-- the text of the roles, where the token names any
abbrev pub roles_text : Option Claims → Option String
roles_text none = none
roles_text (some claims) = elim claims.roles [ none ↦ none | some roles ↦ some (join_commas roles) ]

abbrev pub instead : Option String → Option String → Option String
instead none d = d
instead (some s) d = some s

get-set_roles :
    (user : Option Claims) (headers : JsMap String) (j : String)
    → JsMap.get j (set_roles user headers) ≡ (
        if "x-user-roles" == j
        then instead (roles_text user) (JsMap.get j headers)
        else JsMap.get j headers)
get-set_roles none headers j = ground arith
get-set_roles (some claims) headers j = elim (Option-cases claims.roles) [
  | inl missing ↦ rw missing (ground arith)
  | inr (roles, e) ↦ rw e (ground (arith, get-set "x-user-roles" j (join_commas roles) headers))
]

apart : (s t j : String) → (s == t) ≡ false → (s == j) ≡ true → (t == j) ≡ false
apart s t j other h = ground (arith, eq_iff s j, eq_iff t j, eq_iff s t)

-- The four writes one over the other, as one case for each name.
layers :
    (roles tenant user id old : Option String) (j : String)
    → (let a = if "x-request-id" == j then or_else id old else old in
        let b = if "x-user-id" == j then or_else user a else a in
        let c = if "x-tenant-id" == j then or_else tenant b else b in
        if "x-user-roles" == j then instead roles c else c)
      ≡ (if "x-user-roles" == j
          then instead roles old
          else if "x-tenant-id" == j
          then or_else tenant old
          else if "x-user-id" == j
          then or_else user old
          else if "x-request-id" == j
          then or_else id old
          else old)
layers roles tenant user id old j = ground (
  arith,
  apart "x-user-roles" "x-tenant-id" j refl,
  apart "x-user-roles" "x-user-id" j refl,
  apart "x-user-roles" "x-request-id" j refl,
  apart "x-tenant-id" "x-user-id" j refl,
  apart "x-tenant-id" "x-request-id" j refl,
  apart "x-user-id" "x-request-id" j refl,
)

-- What the upstream service reads under any name: of the four names the value of the request's
-- token or id, if there is one that is not empty (a list of roles always counts); else, and under
-- every other name, the header that the proxy copied from the client.
pub get-proxy_req :
    (id : String) (user : Option Claims) (headers : JsMap String) (j : String)
    → JsMap.get j (proxy_req id user headers) ≡ (
        if "x-user-roles" == j
        then instead (roles_text user) (JsMap.get j headers)
        else if "x-tenant-id" == j
        then or_else (tenant_of user) (JsMap.get j headers)
        else if "x-user-id" == j
        then or_else (sub_of user) (JsMap.get j headers)
        else if "x-request-id" == j
        then or_else (some id) (JsMap.get j headers)
        else JsMap.get j headers)
unfolding proxy_req
get-proxy_req id user headers j =
    let with_id = set_header "x-request-id" (some id) headers in
    let with_user = set_header "x-user-id" (sub_of user) with_id in
    let with_tenant = set_header "x-tenant-id" (tenant_of user) with_user in
    rw (get-set_roles user with_tenant j, proxy_req)
      (rw (get-set_header "x-tenant-id" (tenant_of user) with_user j) (
        rw (get-set_header "x-user-id" (sub_of user) with_id j) (
          rw (get-set_header "x-request-id" (some id) headers j) (
            layers (roles_text user) (tenant_of user) (sub_of user) (some id) (JsMap.get j headers)
              j))))
