-- ===== src/UserService/Lifecycle.antt =====
-- A user from its creation to its deletion.
use aiself_healer.Common.{
  String, true, false, ◌&&◌, Option, some, ◌≡◌, refl, ◌<>◌, arith, eq_refl, is_empty, ◌⊎◌, ◌↔◌, inl,
  inr, Bool-cases, Option-cases,
}
use aiself_healer.JsMap
use aiself_healer.JsMap.Laws.{get-set}
use aiself_healer.UserService.Server.{
  Object, str, property, truthy_value, is_text, is_live, tenant_from, Store, error, created, user,
  not_found, deleted, body_or_empty, new_user, post_user, get_user, patch_user, marked, delete_user,
}

-- A user is served exactly when the map has it, its tenant is the caller's, and it is not deleted.
pub get_user_iff :
    (store : Store) (header : Option String) (id : String) (u : Object)
    → (get_user store header id ≡ user u) ↔ (
        (JsMap.get id store ≡ some u)
        × (is_text (property "tenant_id" u) (tenant_from header) ≡ true)
        × (truthy_value (property "deleted_at" u) ≡ false))
unfolding get_user
get_user_iff store header id u = (
  λ h. elim (Option-cases (JsMap.get id store)) [
    | inl missing ↦ absurd (ground arith)
    | inr (w, stored) ↦ elim (Bool-cases (is_live (tenant_from header) w)) [
      | inl live ↦ ground arith
      | inr dead ↦ absurd (ground arith)
    ]
  ],
  λ h. ground (arith, h.0, h.1, h.2),
)

new_user-live :
    (tenant uuid made updated : String) (body : Object)
    → is_live tenant (new_user tenant uuid made updated body) ≡ true
unfolding new_user JsMap.get
new_user-live tenant uuid made updated body = rw (eq_refl tenant) refl

-- A POST with an email and a name answers with a user that its tenant then gets under the id of
-- the answer; without one of them it answers with the error and stores nothing.
pub post-get :
    (store : Store) (header : Option String) (uuid made updated : String) (body : Option Object)
    → let u = new_user (tenant_from header) uuid made updated (body_or_empty body) in
      ((post_user store header uuid made updated body ≡ (store, error "email_and_name_required"))
        × ((truthy_value (property "email" (body_or_empty body))
              && truthy_value (property "name" (body_or_empty body)))
            ≡ false))
      ⊎ (((post_user store header uuid made updated body).1 ≡ created u)
          × (get_user (post_user store header uuid made updated body).0 header ("profile_" <> uuid)
              ≡ user u))
unfolding post_user get_user
post-get store header uuid made updated body =
    let given = body_or_empty body in
    let u = new_user (tenant_from header) uuid made updated given in
    elim (Bool-cases
      (truthy_value (property "email" given) && truthy_value (property "name" given))) [
        | inl complete ↦ inr (
          ground arith,
          ground (
            arith,
            get-set ("profile_" <> uuid) ("profile_" <> uuid) u store,
            eq_refl ("profile_" <> uuid),
            new_user-live (tenant_from header) uuid made updated given,
          ),
        )
        | inr partial ↦ inl (ground arith, partial)
      ]

property-marked :
    (u : Object) (now : String)
    → (property "id" (marked u now) ≡ property "id" u)
      × (property "tenant_id" (marked u now) ≡ property "tenant_id" u)
      × (property "deleted_at" (marked u now) ≡ str now)
unfolding marked
property-marked u now =
    let dated = JsMap.set "deleted_at" (str now) u in
    (
      rw (get-set "updated_at" "id" (str now) dated, get-set "deleted_at" "id" (str now) u) refl,
      rw
          (
            get-set "updated_at" "tenant_id" (str now) dated,
            get-set "deleted_at" "tenant_id" (str now) u,
          )
          refl,
      rw
          (
            get-set "updated_at" "deleted_at" (str now) dated,
            get-set "deleted_at" "deleted_at" (str now) u,
          )
          refl,
    )

-- A DELETE by the tenant of a stored user, at a date that prints as some text, answers with the
-- user's id, also where the user was deleted before; after it no tenant gets or patches the user
-- under that id, and a second DELETE answers the same.
pub delete-gone :
    (store : Store) (header other : Option String) (id now again : String) (body : Option Object)
    (u : Object)
    → JsMap.get id store ≡ some u
    → is_text (property "tenant_id" u) (tenant_from header) ≡ true
    → is_empty now ≡ false
    → let after = (delete_user store header id now).0 in
      ((delete_user store header id now).1 ≡ deleted (property "id" u))
      × (get_user after other id ≡ not_found)
      × (patch_user after other id body again ≡ (after, not_found))
      × ((delete_user after header id again).1 ≡ deleted (property "id" u))
unfolding delete_user get_user patch_user
delete-gone store header other id now again body u stored mine dated =
    let v = marked u now in
    let (same_id, same_tenant, date) = property-marked u now in
    let kept = get-set id id v store in
    let later = property-marked v again in
    (
      ground (arith, stored, mine, same_id),
      ground (arith, stored, mine, kept, eq_refl id, date, dated),
      ground (arith, stored, mine, kept, eq_refl id, date, dated),
      ground (arith, stored, mine, kept, eq_refl id, same_tenant, same_id, later.0),
    )
