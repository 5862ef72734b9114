-- ===== src/UserService/Isolation.antt =====
-- What a tenant's requests do to the users that another tenant can see.
use aiself_healer.Common.{
  String, true, false, ◌&&◌, Option, none, some, [], ◌∷◌, ◌==◌, ◌≡◌, ◌≢◌, ◌∙◌, refl, sym, ap, ◌<>◌,
  arith, eq_iff, eq_refl, Option-cases, Bool-cases, inl, inr, and-both,
}
use aiself_healer.JsMap
use aiself_healer.JsMap.{JsMap}
use aiself_healer.JsMap.Laws.{get-set, fits, keep-values-set_hidden}
use aiself_healer.UserService.Server.{
  Value, undefined, null, json, str, Object, property, is_text, is_live, tenant_from, Store,
  not_found, body_or_empty, new_user, post_user, get_user, assign, patched, patch_user, marked,
  truthy_value, delete_user, list_users, users,
}

get-assign_absent :
    (name : String) (target source : Object)
    → JsMap.get name source ≡ none
    → JsMap.get name (assign target source) ≡ JsMap.get name target
unfolding assign JsMap.get
get-assign_absent name target [] h = refl
get-assign_absent name target ((k, v) ∷ source) h =
    get-assign_absent name (JsMap.set k v target) source (ground arith)
    ∙ (get-set k name v target ∙ ground arith)

-- A request that changes the store, with the values that it reads.
pub data Request : Type 0 where
  posts : String → String → String → Option Object → Request
  patches : String → Option Object → String → Request
  deletes : String → String → Request

pub apply : Store → Option String → Request → Store
apply store header (posts uuid made updated body) =
    (post_user store header uuid made updated body).0
apply store header (patches id body now) = (patch_user store header id body now).0
apply store header (deletes id now) = (delete_user store header id now).0

-- A new user's id is not in use, and the body of a PATCH names no tenant.
unfoldable pub IsOrdinary : Store → Request → Type 0
IsOrdinary store (posts uuid made updated body) = JsMap.get ("profile_" <> uuid) store ≡ none
IsOrdinary store (patches id body now) = JsMap.get "tenant_id" (body_or_empty body) ≡ none
IsOrdinary store (deletes id now) = Unit

is_text-ne : (v : Value) (s t : String) → is_text v s ≡ true → s ≢ t → is_text v t ≡ false
is_text-ne undefined s t h n = refl
is_text-ne null s t h n = refl
is_text-ne (json x y) s t h n = refl
is_text-ne (str r) s t h n = ground (arith, eq_iff r s, eq_iff r t)

new_user-tenant :
    (tenant uuid made updated : String) (body : Object)
    → is_text (property "tenant_id" (new_user tenant uuid made updated body)) tenant ≡ true
unfolding new_user JsMap.get
new_user-tenant tenant uuid made updated body = eq_refl tenant

-- The tenant of a user after a PATCH that names none, and after a DELETE.
patched-tenant :
    (u : Object) (body : Option Object) (now t : String)
    → JsMap.get "tenant_id" (body_or_empty body) ≡ none
    → is_text (property "tenant_id" u) t ≡ true
    → is_text (property "tenant_id" (patched u body now)) t ≡ true
unfolding patched
patched-tenant u body now t kept own =
    rw (get-set "updated_at" "tenant_id" (str now) (assign u (body_or_empty body)))
      (rw (get-assign_absent "tenant_id" u (body_or_empty body) kept) own)

marked-tenant :
    (u : Object) (now t : String)
    → is_text (property "tenant_id" u) t ≡ true
    → is_text (property "tenant_id" (marked u now)) t ≡ true
unfolding marked
marked-tenant u now t own =
    rw (get-set "updated_at" "tenant_id" (str now) (JsMap.set "deleted_at" (str now) u))
      (rw (get-set "deleted_at" "tenant_id" (str now) u) own)

module _ (store : Store) (b : Option String) where
  get_user_hidden :
      (k : String)
      → fits (is_live (tenant_from b)) (JsMap.get k store) ≡ false
      → get_user store b k ≡ not_found
  unfolding get_user
  get_user_hidden k h = elim (Option-cases (JsMap.get k store)) [
    | inl missing ↦ rw (missing, get_user) refl
    | inr (u, stored) ↦
        let dead : is_live (tenant_from b) u ≡ false = rw stored at h in
        rw (stored, get_user) (rw dead refl)
  ]

  write_hidden :
      (k : String) (u : Object)
      → fits (is_live (tenant_from b)) (JsMap.get k store) ≡ false
      → is_live (tenant_from b) u ≡ false
      → ((id : String) → get_user (JsMap.set k u store) b id ≡ get_user store b id)
        × (list_users (JsMap.set k u store) b ≡ list_users store b)
  unfolding get_user list_users
  write_hidden k u before now = (
    λ id. elim (Bool-cases (k == id)) [
      | inl same ↦
          rw (get-set k id u store, get_user)
            (rw same (rw (← (eq_iff k id).0 same) (rw now (sym (get_user_hidden k before)))))
      | inr other ↦ rw (get-set k id u store, get_user) (rw other refl)
    ],
    ap users (keep-values-set_hidden (is_live (tenant_from b)) k u store before now),
  )

module _ (store : Store) (a b : Option String) (different : tenant_from a ≢ tenant_from b) where
  not_live :
      (u : Object)
      → is_text (property "tenant_id" u) (tenant_from a) ≡ true
      → is_live (tenant_from b) u ≡ false
  not_live u h =
      ground
        (arith, is_text-ne (property "tenant_id" u) (tenant_from a) (tenant_from b) h different)

  -- The tenant's own user, before and after a request that keeps the tenant.
  hidden_before :
      (id : String) (u : Object)
      → JsMap.get id store ≡ some u
      → is_text (property "tenant_id" u) (tenant_from a) ≡ true
      → fits (is_live (tenant_from b)) (JsMap.get id store) ≡ false
  hidden_before id u stored mine = rw stored (not_live u mine)

  -- The store is as it was, or one value of it changed that the other tenant sees in neither form.
  data Touches (store' : Store) : Type 0 where
    same : store' ≡ store → Touches store'
    wrote :
        (k : String) (u : Object)
        → fits (is_live (tenant_from b)) (JsMap.get k store) ≡ false
        → is_live (tenant_from b) u ≡ false
        → store' ≡ JsMap.set k u store
        → Touches store'

  post-Touches :
      (uuid made updated : String) (body : Option Object)
      → JsMap.get ("profile_" <> uuid) store ≡ none
      → Touches (post_user store a uuid made updated body).0
  unfolding post_user
  post-Touches uuid made updated body fresh =
      let given = body_or_empty body in
      elim (Bool-cases
        (truthy_value (property "email" given) && truthy_value (property "name" given))) [
          | inl complete ↦
              let u = new_user (tenant_from a) uuid made updated given in
              wrote ("profile_" <> uuid) u (rw fresh refl)
                (not_live u (new_user-tenant (tenant_from a) uuid made updated given))
                (ground arith)
          | inr partial ↦ same (ground arith)
        ]

  patch-Touches :
      (id : String) (body : Option Object) (now : String)
      → JsMap.get "tenant_id" (body_or_empty body) ≡ none
      → Touches (patch_user store a id body now).0
  unfolding patch_user
  patch-Touches id body now kept = elim (Option-cases (JsMap.get id store)) [
    | inl missing ↦ same (ground arith)
    | inr (u, stored) ↦ elim (Bool-cases (is_live (tenant_from a) u)) [
      | inl mine ↦
          let own = (and-both _ _ mine).0 in
          wrote id (patched u body now) (hidden_before id u stored own)
            (not_live (patched u body now) (patched-tenant u body now (tenant_from a) kept own))
            (ground arith)
      | inr other ↦ same (ground arith)
    ]
  ]

  delete-Touches : (id now : String) → Touches (delete_user store a id now).0
  unfolding delete_user
  delete-Touches id now = elim (Option-cases (JsMap.get id store)) [
    | inl missing ↦ same (ground arith)
    | inr (u, stored) ↦ elim (Bool-cases (is_text (property "tenant_id" u) (tenant_from a))) [
      | inl own ↦
          wrote id (marked u now) (hidden_before id u stored own)
            (not_live (marked u now) (marked-tenant u now (tenant_from a) own)) (ground arith)
      | inr other ↦ same (ground arith)
    ]
  ]

  Touches-hidden :
      (store' : Store)
      → Touches store'
      → ((id : String) → get_user store' b id ≡ get_user store b id)
        × (list_users store' b ≡ list_users store b)
  Touches-hidden store' (same e) = rw e (λ id. refl, refl)
  Touches-hidden store' (wrote k u before now e) = rw e (write_hidden store b k u before now)

-- What a tenant creates, deletes, or patches without naming a tenant in the body changes neither
-- what another tenant gets under any id nor what it lists, if a new user's id is not in use.
pub apply_hidden :
    (store : Store) (a b : Option String) (request : Request)
    → tenant_from a ≢ tenant_from b
    → IsOrdinary store request
    → ((id : String) → get_user (apply store a request) b id ≡ get_user store b id)
      × (list_users (apply store a request) b ≡ list_users store b)
unfolding apply IsOrdinary
apply_hidden store a b (posts uuid made updated body) different fresh =
    Touches-hidden store a b different _
      (post-Touches store a b different uuid made updated body fresh)
apply_hidden store a b (patches id body now) different kept =
    Touches-hidden store a b different _ (patch-Touches store a b different id body now kept)
apply_hidden store a b (deletes id now) different ordinary =
    Touches-hidden store a b different _ (delete-Touches store a b different id now)
