-- ===== src/Gateway/Auth/Roles.antt =====
-- Which users pass a role check.
use aiself_healer.Common.{
  String, true, List, ◌==◌, ◌≡◌, ◌⊎◌, ◌↔◌, any, arith, inl, inr, refl, Bool-cases, eq_iff, any-mem,
  any_of_mem, Memᴰ, or-cases, ◌||◌, or_right, eq_refl,
}
use mathlib.Core.Path.{subst}
use aiself_healer.Gateway.Auth.{Request, next, deny, forbidden, includes, user_roles, require_role}

includes_iff :
    (texts : List String) (text : String) → (includes texts text ≡ true) ↔ Memᴰ text texts
includes_iff texts text = (
  λ h.
      let (t, m, e) = any-mem (λ t. t == text) texts h in
      subst (λ t'. Memᴰ t' texts) ((eq_iff t text).0 e) m,
  λ m. any_of_mem (λ t. t == text) text texts m (eq_refl text),
)

-- The user has one of the roles, or is a super admin.
abbrev pub HasRole : List String → Request → Type 0
HasRole roles req =
    Memᴰ "super_admin" (user_roles req.user)
    ⊎ ((role : String) × Memᴰ role roles × Memᴰ role (user_roles req.user))

-- The role check answers `next()` with the request as it was, or the 403 that names the roles;
-- the first exactly when the user is a super admin or has one of the roles.
pub require_role_lem :
    (roles : List String) (req : Request)
    → ((require_role roles req ≡ next req) ⊎ (require_role roles req ≡ deny (forbidden roles)))
      × ((require_role roles req ≡ next req) ↔ HasRole roles req)
unfolding require_role
require_role_lem roles req = (ground arith, (to, from))
  where
    mine : List String
    mine = user_roles req.user

    test_to : (includes mine "super_admin" || any (includes mine) roles) ≡ true → HasRole roles req
    test_to h = elim (or-cases (includes mine "super_admin") _ h) [
      | inl e ↦ inl ((includes_iff mine "super_admin").0 e)
      | inr e ↦
          let (role, listed, has) = any-mem (includes mine) roles e in
          inr (role, listed, (includes_iff mine role).0 has)
    ]

    to : require_role roles req ≡ next req → HasRole roles req
    to h = elim (Bool-cases (includes mine "super_admin" || any (includes mine) roles)) [
      | inl e ↦ test_to e
      | inr e ↦ absurd (ground arith)
    ]

    from : HasRole roles req → require_role roles req ≡ next req
    from (inl m) = rw ((includes_iff mine "super_admin").1 m) refl
    from (inr (role, listed, has)) =
        rw
          (or_right (includes mine "super_admin") _
            (any_of_mem (includes mine) role roles listed ((includes_iff mine role).1 has)))
          refl
