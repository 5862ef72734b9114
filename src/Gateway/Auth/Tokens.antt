-- ===== src/Gateway/Auth/Tokens.antt =====
-- Which requests pass the token check, and with which identity.
use aiself_healer.Common.{
  true, some, ◌≡◌, ◌⊎◌, truthy, arith, inl, inr, refl, sym, ◌∙◌, false, String, join_commas,
  if◌then◌else◌, ◌==◌, ◌↔◌, Bool-cases, Option-cases,
}
use aiself_healer.JsMap
use aiself_healer.JsMap.Laws.{get-set}
use aiself_healer.Gateway.Auth.{
  Claims, Request, header, roles_of, deny, missing_token, extract_token, next, PublicKey, loaded,
  unsigned, failed, Verified, payload, rejected, dev_user, accept, check_token, require_jwt,
  is_public_route,
}

Verified-cases :
    (v : Verified)
    → ((claims : Claims) × (v ≡ payload claims)) ⊎ ((message : String) × (v ≡ rejected message))
Verified-cases (payload claims) = inl (claims, refl)
Verified-cases (rejected message) = inr (message, refl)

-- Whatever headers the client sent, a request that is accepted with a token's claims has the
-- token's subject, tenant and roles in the three identity headers, and its other headers as sent.
pub header-accept :
    (req : Request) (claims : Claims) (name : String)
    → header name (accept req claims) ≡ (
        if "x-user-roles" == name
        then some (join_commas (roles_of claims.roles))
        else (if "x-tenant-id" == name
            then claims.tenant_id
            else (if "x-user-id" == name then claims.sub else header name req)))
unfolding accept
header-accept req claims name =
    let with_id = JsMap.set "x-user-id" claims.sub req.headers in
    let with_tenant = JsMap.set "x-tenant-id" claims.tenant_id with_id in
    let roles = some (join_commas (roles_of claims.roles)) in
    ground (
      arith,
      get-set "x-user-roles" name roles with_tenant,
      get-set "x-tenant-id" name claims.tenant_id with_id,
      get-set "x-user-id" name claims.sub req.headers,
    )

-- The path is not open and the request carries the token, which is not empty.
pub record Carries (req : Request) (token : String) : Type 0 where
  pub closed : is_public_route req.path ≡ false
  pub found : extract_token req ≡ some token
  pub filled : truthy (some token) ≡ true

module _ {K : Type 0} (jwt_verify : String → K → Verified) (key : PublicKey K) (req : Request) where
  -- The reasons for which the request goes on as `req'`.
  pub data Passes (req' : Request) : Type 0 where
    open_route : is_public_route req.path ≡ true → req' ≡ req → Passes req'
    dev_mode :
        (token : String)
        → Carries req token
        → key ≡ unsigned
        → req' ≡ record req { user = some dev_user }
        → Passes req'
    verified :
        (token : String) (k : K) (claims : Claims)
        → Carries req token
        → key ≡ loaded k
        → jwt_verify token k ≡ payload claims
        → req' ≡ accept req claims
        → Passes req'

  require_jwt-Carries :
      (token : String)
      → Carries req token
      → require_jwt jwt_verify key req ≡ check_token jwt_verify key req token
  unfolding require_jwt
  require_jwt-Carries token c = rw (c.closed, c.found, require_jwt) (ground (arith, c.filled))

  check_token-Passes :
      (token : String) (req' : Request)
      → Carries req token
      → (key' : PublicKey K) → key ≡ key'
      → check_token jwt_verify key' req token ≡ next req'
      → Passes req'
  unfolding check_token
  check_token-Passes token req' c (loaded k) same h = elim (Verified-cases (jwt_verify token k)) [
    | inl (claims, v) ↦ verified token k claims c same v (ground arith)
    | inr (message, v) ↦ absurd (ground arith)
  ]
  check_token-Passes token req' c unsigned same h = dev_mode token c same (ground arith)
  check_token-Passes token req' c (failed message) same h = cc

  -- What the token check waits on: an open path, no token, or a token carried.
  pub Carries-cases :
      (is_public_route req.path ≡ true)
      ⊎ ((is_public_route req.path ≡ false) × (truthy (extract_token req) ≡ false))
      ⊎ ((token : String) × Carries req token)
  Carries-cases = elim (Bool-cases (is_public_route req.path)) [
    | inl public ↦ inl public
    | inr closed ↦ inr (elim (Option-cases (extract_token req)) [
      | inl missing ↦ inl (closed, ground arith)
      | inr (token, e) ↦ elim (Bool-cases (truthy (some token))) [
        | inl t ↦ inr (token, record { closed = closed; found = e; filled = t })
        | inr empty ↦ inl (closed, rw e empty)
      ]
    ])
  ]

  pub require_jwt_without :
      is_public_route req.path ≡ false
      → truthy (extract_token req) ≡ false
      → require_jwt jwt_verify key req ≡ deny missing_token
  unfolding require_jwt
  require_jwt_without closed missing = ground arith

  require_jwt_to : (req' : Request) → require_jwt jwt_verify key req ≡ next req' → Passes req'
  unfolding require_jwt
  require_jwt_to req' h = elim Carries-cases [
    | inl public ↦ open_route public (ground arith)
    | inr (inl (closed, missing)) ↦ absurd (ground (arith, require_jwt_without closed missing))
    | inr (inr (token, c)) ↦
        check_token-Passes token req' c key refl (sym (require_jwt-Carries token c) ∙ h)
  ]

  require_jwt_from : (req' : Request) → Passes req' → require_jwt jwt_verify key req ≡ next req'
  unfolding check_token
  require_jwt_from req' (open_route o same) = unfold require_jwt in rw (o, same) refl
  require_jwt_from req' (dev_mode token c k same) =
      require_jwt-Carries token c ∙ rw (k, same, check_token) refl
  require_jwt_from req' (verified token k claims c same v r) =
      require_jwt-Carries token c ∙ rw (same, r, check_token) (rw v refl)

  -- A request goes on exactly when its path is open, and then unchanged; or when it carries a
  -- token and the gateway has no key, as the development user; or when it carries a token that the
  -- verification accepts with the loaded key, with that token's claims.
  pub require_jwt_iff :
      (req' : Request) → (require_jwt jwt_verify key req ≡ next req') ↔ Passes req'
  require_jwt_iff req' = (require_jwt_to req', require_jwt_from req')
