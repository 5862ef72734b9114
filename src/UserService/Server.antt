-- ===== src/UserService/Server.antt =====
-- services/user-service/src/server.js: the handlers of the routes under /users. A stored user is
-- a JavaScript object, a map from property names to values, since a PATCH can write any property.
use aiself_healer.Common.{
  String, Bool, true, false, ◌&&◌, not, Option, none, some, List, [], ◌∷◌, ◌==◌, if◌then◌else◌,
  ◌<>◌, is_empty, text_or, keep,
}
use aiself_healer.JsMap
use aiself_healer.JsMap.{JsMap}

-- A value of a property: `undefined`, `null`, a text, or any other JSON value with its truthiness.
pub data Value : Type 0 where
  undefined null : Value
  str : String → Value
  json : Bool → String → Value

abbrev pub Object : Type 0
Object = JsMap Value

-- `object.name`
abbrev pub or_undefined : Option Value → Value
or_undefined none = undefined
or_undefined (some v) = v

abbrev pub property : String → Object → Value
property name object = or_undefined (JsMap.get name object)

abbrev pub truthy_value : Value → Bool
truthy_value undefined = false
truthy_value null = false
truthy_value (str s) = not (is_empty s)
truthy_value (json b s) = b

-- `value === text`
abbrev pub is_text : Value → String → Bool
is_text (str s) t = s == t
is_text undefined t = false
is_text null t = false
is_text (json b s) t = false

-- `value || other`
abbrev pub value_or : Value → Value → Value
value_or v d = if truthy_value v then v else d

-- `req.headers["x-tenant-id"] || "tenant-demo"`
abbrev pub tenant_from : Option String → String
tenant_from header = text_or header "tenant-demo"

abbrev pub Store : Type 0
Store = JsMap Object

pub data Reply : Type 0 where
  error : String → Reply
  not_found : Reply
  users : List Object → Reply
  created : Object → Reply
  user : Object → Reply
  deleted : Value → Reply

-- `user.tenant_id === tenantId && !user.deleted_at`
abbrev pub is_live : String → Object → Bool
is_live tenant u =
    is_text (property "tenant_id" u) tenant && not (truthy_value (property "deleted_at" u))

unfoldable pub list_users : Store → Option String → Reply
list_users store header = users (keep (is_live (tenant_from header)) (JsMap.values store))

-- `req.body || {}`
abbrev pub body_or_empty : Option Object → Object
body_or_empty none = []
body_or_empty (some body) = body

-- the object that `POST /users` makes; `uuid` and the two dates are read in between
unfoldable pub new_user : String → String → String → String → Object → Object
new_user tenant uuid made updated body =
    ("id", str ("profile_" <> uuid))
    ∷ ("tenant_id", str tenant)
    ∷ ("email", property "email" body)
    ∷ ("name", property "name" body)
    ∷ ("role", value_or (property "role" body) (str "viewer"))
    ∷ ("metadata", value_or (property "metadata" body) (json true "{}"))
    ∷ ("created_at", str made)
    ∷ ("updated_at", str updated)
    ∷ ("deleted_at", null)
    ∷ []

unfoldable pub post_user :
    Store → Option String → String → String → String → Option Object → Store × Reply
post_user store header uuid made updated body =
    let u = new_user (tenant_from header) uuid made updated (body_or_empty body) in
    if truthy_value (property "email" (body_or_empty body))
      && truthy_value (property "name" (body_or_empty body))
    then (JsMap.set ("profile_" <> uuid) u store, created u)
    else (store, error "email_and_name_required")

unfoldable pub get_user : Store → Option String → String → Reply
get_user store header id = elim (JsMap.get id store) [
  | none ↦ not_found
  | some u ↦ if is_live (tenant_from header) u then user u else not_found
]

-- `Object.assign(target, source)`
unfoldable pub assign : Object → Object → Object
assign target [] = target
assign target ((name, value) ∷ source) = assign (JsMap.set name value target) source

-- `Object.assign(user, req.body || {}, { updated_at: … })`, on the object in the map
unfoldable pub patched : Object → Option Object → String → Object
patched u body now = JsMap.set "updated_at" (str now) (assign u (body_or_empty body))

unfoldable pub patch_user : Store → Option String → String → Option Object → String → Store × Reply
patch_user store header id body now = elim (JsMap.get id store) [
  | none ↦ (store, not_found)
  | some u ↦
      if is_live (tenant_from header) u
      then (JsMap.set id (patched u body now) store, user (patched u body now))
      else (store, not_found)
]

-- the object with `deleted_at` and `updated_at` set to one date
unfoldable pub marked : Object → String → Object
marked u now = JsMap.set "updated_at" (str now) (JsMap.set "deleted_at" (str now) u)

unfoldable pub delete_user : Store → Option String → String → String → Store × Reply
delete_user store header id now = elim (JsMap.get id store) [
  | none ↦ (store, not_found)
  | some u ↦
      if is_text (property "tenant_id" u) (tenant_from header)
      then (JsMap.set id (marked u now) store, deleted (property "id" (marked u now)))
      else (store, not_found)
]

-- what the service tells of itself; `heartbeat` is the date of the answer
pub record Registry : Type 0 where
  pub service_id : String
  pub url : String
  pub endpoints : List String
  pub heartbeat_at : String

abbrev pub registry : Option String → String → Registry
registry public_url heartbeat = record {
  service_id = "user-service";
  url = text_or public_url "http://user-service:3002";
  endpoints = "/users" ∷ "/users/:id" ∷ "/health" ∷ "/metrics" ∷ [];
  heartbeat_at = heartbeat;
}
