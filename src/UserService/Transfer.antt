-- ===== src/UserService/Transfer.antt =====
-- A PATCH that hands a user to another tenant.
use aiself_healer.Common.{
  String, true, ◌&&◌, not, Option, some, [], ◌∷◌, ◌==◌, ◌≡◌, ◌≢◌, refl, arith, eq_iff, eq_refl,
}
use aiself_healer.JsMap
use aiself_healer.JsMap.{JsMap}
use aiself_healer.JsMap.Laws.{get-set}
use aiself_healer.UserService.Server.{
  str, Object, property, is_live, tenant_from, Store, user, not_found, get_user, assign, patched,
  patch_user, truthy_value,
}

abbrev pub naming : String → Option Object
naming tenant = some (("tenant_id", str tenant) ∷ [])

moved-live :
    (u : Object) (tenant t now : String)
    → is_live t (patched u (naming tenant) now)
      ≡ (tenant == t && not (truthy_value (property "deleted_at" u)))
unfolding patched assign
moved-live u tenant t now =
    let moved = JsMap.set "tenant_id" (str tenant) u in
    rw
      (
        get-set "updated_at" "tenant_id" (str now) moved,
        get-set "updated_at" "deleted_at" (str now) moved,
        get-set "tenant_id" "tenant_id" (str tenant) u,
        get-set "tenant_id" "deleted_at" (str tenant) u,
      )
      refl

-- A PATCH whose body is the name of another tenant hands a live user of the sender over: the tenant
-- that sent it no longer gets the user, and the tenant that the body names does.
pub patch-moves :
    (store : Store) (a b : Option String) (id now : String) (u : Object)
    → JsMap.get id store ≡ some u
    → is_live (tenant_from a) u ≡ true
    → tenant_from a ≢ tenant_from b
    → (get_user (patch_user store a id (naming (tenant_from b)) now).0 a id ≡ not_found)
      × (get_user (patch_user store a id (naming (tenant_from b)) now).0 b id
          ≡ user (patched u (naming (tenant_from b)) now))
unfolding patch_user get_user
patch-moves store a b id now u stored mine different =
    let v = patched u (naming (tenant_from b)) now in
    let after = get-set id id v store in
    (
      ground (
        arith,
        stored,
        after,
        eq_refl id,
        moved-live u (tenant_from b) (tenant_from a) now,
        eq_iff (tenant_from b) (tenant_from a),
      ),
      ground (
        arith,
        stored,
        after,
        eq_refl id,
        moved-live u (tenant_from b) (tenant_from b) now,
        eq_refl (tenant_from b),
      ),
    )
