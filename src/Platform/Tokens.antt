-- ===== src/Platform/Tokens.antt =====
-- The tokens that the authentication service signs, at the gateway that verifies them. What the two
-- rely on of the signing package is a hypothesis: a token that was signed verifies under the key
-- that the gateway has loaded, with the claims that were signed, if its issuer and its audience are
-- those that are asked for and it has not expired.
use aiself_healer.Common.{
  ℕ, ◌+◌, ◌/◌, ◌<◌, String, false, some, ◌≡◌, refl, arith, is_empty, after_prefix-append, ◌<>◌,
}
use aiself_healer.AuthService.Server.State as Auth
use aiself_healer.AuthService.Server.State.{User, Env, App, Reply, registered}
use aiself_healer.AuthService.Server.Handlers.{claims_of, tokens_of}
use aiself_healer.Gateway.Auth.{
  Claims, Request, next, loaded, payload, Verified, header, extract_token, is_public_route,
  require_jwt, accept, JwtOptions,
}
use aiself_healer.Gateway.Auth.Tokens.{Carries, verified, require_jwt_iff}

-- the claims as the gateway reads them
abbrev pub claims_read : Auth.Claims → Claims
claims_read c = record { sub = some c.sub; tenant_id = some c.tenant_id; roles = some c.roles }

-- The request asks for a path that is not open, with the token as a bearer token.
pub record Bears (req : Request) (token : String) : Type 0 where
  pub closed : is_public_route req.path ≡ false
  pub bearer : header "authorization" req ≡ some ("Bearer " <> token)

extract_token-bearer :
    (req : Request) (token : String)
    → header "authorization" req ≡ some ("Bearer " <> token)
    → extract_token req ≡ some token
unfolding extract_token
extract_token-bearer req token b =
    rw (b, extract_token) (rw (after_prefix-append "Bearer " token) refl)

Bears-Carries :
    (req : Request) (token : String) → is_empty token ≡ false → Bears req token → Carries req token
Bears-Carries req token filled b = record {
  closed = b.closed;
  found = extract_token-bearer req token b.bearer;
  filled = ground (arith, filled);
}

-- What the verification does with the tokens of a signer: it is asked for an issuer and an audience
-- at a time in milliseconds, and the times in a token are seconds.
abbrev pub IsTrusted :
    {K : Type 0} → (JwtOptions → ℕ → String → K → Verified) → K → (Auth.Claims → String) → Type 0
IsTrusted jwt_verify key sign =
    (options : JwtOptions) (now : ℕ) (c : Auth.Claims)
    → c.issuer ≡ options.issuer
    → c.audience ≡ options.audience
    → now / 1000 < c.expires_at
    → jwt_verify options now (sign c) key ≡ payload (claims_read c)

-- The two services have the same settings of the issuer and of the audience.
pub record Agrees (env : Env) (options : JwtOptions) : Type 0 where
  pub same_issuer : env.issuer ≡ options.issuer
  pub same_audience : env.audience ≡ options.audience

-- An access token that was made with these readings has not expired by a time.
abbrev pub IsFresh : Env → Auth.Readings → ℕ → Type 0
IsFresh env r now = now / 1000 < r.issued_at / 1000 + env.access_ttl

module _ {K : Type 0} (jwt_verify : JwtOptions → ℕ → String → K → Verified) (key : K) (env : Env)
    (trusted : IsTrusted jwt_verify key env.sign)
    (filled : (c : Auth.Claims) → is_empty (env.sign c) ≡ false) (options : JwtOptions)
    (agrees : Agrees env options) where
  -- A request with the access token of an account, until it expires, goes on at the gateway as that
  -- account: with its id, its tenant and its roles.
  pub bearer-accept :
      (user : User) (r : Auth.Readings) (now : ℕ) (req : Request)
      → IsFresh env r now
      → Bears req (tokens_of env r user).access_token
      → require_jwt (jwt_verify options now) (loaded key) req
        ≡ next (accept req (claims_read (claims_of env r user)))
  bearer-accept user r now req fresh b =
      let c = claims_of env r user in
      (require_jwt_iff (jwt_verify options now) (loaded key) req (accept req (claims_read c))).1 (
        verified (env.sign c) key (claims_read c) (Bears-Carries req (env.sign c) (filled c) b) refl
          (trusted options now c agrees.same_issuer agrees.same_audience fresh) refl)
