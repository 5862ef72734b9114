-- ===== src/AuthService/Rbac.antt =====
-- services/auth-service/src/rbac.js.
pub mod Laws
use aiself_healer.Common.{
  String, Bool, true, false, Option, none, some, List, [], ◌∷◌, ◌++◌, ◌==◌, if◌then◌else◌, map, any,
}
use aiself_healer.JsMap
use aiself_healer.JsMap.{JsMap}

-- An element of a permission list: a text, or, where a role is spelled like a member that every
-- object inherits, that member.
pub data Permission : Type 0 where
  named : String → Permission
  inherited : String → Permission

abbrev pub roles_table : JsMap (List String)
roles_table =
    ("super_admin", "*" ∷ [])
    ∷ ("tenant_admin", "users:*" ∷ "data:*" ∷ "alerts:*" ∷ "chaos:run" ∷ "healing:run" ∷ [])
    ∷ ("operator", "alerts:read" ∷ "healing:run" ∷ "chaos:run" ∷ "metrics:read" ∷ [])
    ∷ ("viewer", "alerts:read" ∷ "metrics:read" ∷ "dashboard:read" ∷ [])
    ∷ ("ai_engineer", "metrics:read" ∷ "models:*" ∷ "alerts:read" ∷ [])
    ∷ []

-- the members of `Object.prototype`, which `ROLES[role]` finds too
abbrev pub prototype_members : List String
prototype_members =
    "constructor" ∷ "__defineGetter__" ∷ "__defineSetter__" ∷ "hasOwnProperty" ∷ "__lookupGetter__"
    ∷ "__lookupSetter__" ∷ "isPrototypeOf" ∷ "propertyIsEnumerable" ∷ "toString" ∷ "valueOf"
    ∷ "__proto__" ∷ "toLocaleString" ∷ []

-- what `flatMap` adds for a role: `ROLES[role] || []`, a member that is no array as one element
unfoldable pub entry : String → List Permission
entry role = elim (JsMap.get role roles_table) [
  | some permissions ↦ map named permissions
  | none ↦ if any (λ m. m == role) prototype_members then inherited role ∷ [] else []
]

abbrev pub same_permission : Permission → Permission → Bool
same_permission (named p) (named q) = p == q
same_permission (inherited p) (inherited q) = p == q
same_permission _ _ = false

unfoldable pub flat_entries : List String → List Permission
flat_entries [] = []
flat_entries (role ∷ roles) = entry role ++ flat_entries roles

-- `add` of a `Set`, which keeps the order of insertion
unfoldable pub add : List Permission → Permission → List Permission
add s p = if any (λ q. same_permission q p) s then s else s ++ p ∷ []

unfoldable pub add_all : List Permission → List Permission → List Permission
add_all s [] = s
add_all s (p ∷ ps) = add_all (add s p) ps

-- `[...new Set(roles.flatMap(…))]`; the parameter's default is the empty list
unfoldable pub permissions_for : Option (List String) → List Permission
permissions_for none = []
permissions_for (some roles) = add_all [] (flat_entries roles)
