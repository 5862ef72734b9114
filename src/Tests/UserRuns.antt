-- ===== src/Tests/UserRuns.antt =====
-- The user service at two tenants.
use aiself_healer.Common.{String, Option, some, [], ◌∷◌, ◌≡◌, ◌≢◌, refl, arith, eq_iff}
use aiself_healer.JsMap
use aiself_healer.UserService.Server.{
  Object, str, null, Store, property, tenant_from, user, not_found, deleted, get_user, list_users,
  patch_user, patched, delete_user,
}
use aiself_healer.UserService.Isolation.{Request, patches, apply, apply_hidden, IsOrdinary}
use aiself_healer.UserService.Transfer.{naming, patch-moves}
use aiself_healer.UserService.Lifecycle.{delete-gone}

abbrev pub profile : Object
profile =
    ("id", str "profile_1")
    ∷ ("tenant_id", str "t1")
    ∷ ("name", str "Ann")
    ∷ ("deleted_at", null)
    ∷ []

abbrev pub one_profile : Store
one_profile = ("profile_1", profile) ∷ []

t1≢t2 : tenant_from (some "t1") ≢ tenant_from (some "t2")
t1≢t2 e = ground (arith, eq_iff "t1" "t2")

stored_profile : JsMap.get "profile_1" one_profile ≡ some profile
unfolding JsMap.get
stored_profile = refl

abbrev renames : Request
renames = patches "profile_1" (some (("name", str "Bea") ∷ [])) "2026-01-02"

ordinary : IsOrdinary one_profile renames
unfolding IsOrdinary JsMap.get
ordinary = refl

apply_hidden_example :
    ((id : String)
      → get_user (apply one_profile (some "t1") renames) (some "t2") id
        ≡ get_user one_profile (some "t2") id)
    × (list_users (apply one_profile (some "t1") renames) (some "t2")
        ≡ list_users one_profile (some "t2"))
apply_hidden_example = apply_hidden one_profile (some "t1") (some "t2") renames t1≢t2 ordinary

patch-moves_example :
    (get_user
        (patch_user one_profile (some "t1") "profile_1" (naming "t2") "2026-01-02").0
        (some "t1")
        "profile_1"
      ≡ not_found)
    × (get_user
          (patch_user one_profile (some "t1") "profile_1" (naming "t2") "2026-01-02").0
          (some "t2")
          "profile_1"
        ≡ user (patched profile (naming "t2") "2026-01-02"))
patch-moves_example =
    patch-moves one_profile (some "t1") (some "t2") "profile_1" "2026-01-02" profile stored_profile
      (unfold JsMap.get in refl) t1≢t2

abbrev named_ann : Option Object
named_ann = some (("email", str "ann@example.com") ∷ ("name", str "Ann") ∷ [])

delete-gone_example :
    let after = (delete_user one_profile (some "t1") "profile_1" "2026-01-02").0 in
    ((delete_user one_profile (some "t1") "profile_1" "2026-01-02").1
      ≡ deleted (property "id" profile))
    × (get_user after (some "t1") "profile_1" ≡ not_found)
    × (patch_user after (some "t1") "profile_1" named_ann "2026-01-03" ≡ (after, not_found))
    × ((delete_user after (some "t1") "profile_1" "2026-01-03").1 ≡ deleted (property "id" profile))
delete-gone_example =
    delete-gone one_profile (some "t1") (some "t1") "profile_1" "2026-01-02" "2026-01-03" named_ann
      profile stored_profile (unfold JsMap.get in refl) refl
