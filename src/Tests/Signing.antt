-- ===== src/Tests/Signing.antt =====
-- A signing package for the tests: a token is the text of the private key before the claims, and it
-- verifies under a key of the same text, for its issuer and audience, until it expires.

use aiself_healer.Common.{
  ℕ, zero, suc, String, Bool, true, false, Option, none, some, List, [], ◌∷◌, ◌≡◌, ◌==◌, refl,
  arith, eq_refl, eq_iff, ltb, ◌/◌, ◌&&◌, is_empty, length,
}
use aiself_healer.AuthService.Server.State as Auth
use aiself_healer.AuthService.Server.State.{Env}
use aiself_healer.AuthService.Startup.{KeyPair}
use aiself_healer.Gateway.Auth.{Verified, payload, rejected, JwtOptions}
use aiself_healer.Gateway.Auth.Keys.{Imported, key}
use aiself_healer.Platform.Tokens.{IsTrusted, Agrees}
use aiself_healer.Platform.Keys.{IsPair}
use aiself_healer.Tests.Samples.{
  env, encode_text, decode_text, decode-encode_text, encode_text-filled, encode_nat, decode_nat,
  decode-encode_nat, ◌>>=◌,
}

encode_texts : List String → String
encode_texts [] = ""
encode_texts (t ∷ ts) = encode_text t (encode_texts ts)

decode_texts : ℕ → String → Option (List String)
decode_texts zero s = some []
decode_texts (suc n) s = do (t, r) ← decode_text s; rest ← decode_texts n r; some (t ∷ rest)

decode-encode_texts : (ts : List String) → decode_texts (length ts) (encode_texts ts) ≡ some ts
unfolding decode_texts encode_texts
decode-encode_texts [] = refl
decode-encode_texts (t ∷ ts) = rw decode-encode_text (rw (decode-encode_texts ts) refl)

pub sign_with : String → Auth.Claims → String
sign_with private c = encode_text private (
    encode_text c.issuer (
      encode_text c.audience (
        encode_nat c.expires_at (
          encode_text c.sub
            (encode_text c.tenant_id (encode_nat (length c.roles) (encode_texts c.roles)))))))

abbrev checked : Bool → String → String → List String → Verified
checked true sub tenant roles =
    payload (record { sub = some sub; tenant_id = some tenant; roles = some roles })
checked false sub tenant roles = rejected "signature verification failed"

abbrev verdict : Option Verified → Verified
verdict none = rejected "Invalid Compact JWS"
verdict (some v) = v

read_token : JwtOptions → ℕ → String → String → Option Verified
read_token options now token k = do
  (private, q₀) ← decode_text token
  (issuer, q₁) ← decode_text q₀
  (audience, q₂) ← decode_text q₁
  (expires_at, r₁) ← decode_nat q₂
  (sub, r₂) ← decode_text r₁
  (tenant, r₃) ← decode_text r₂
  (n, r₄) ← decode_nat r₃
  roles ← decode_texts n r₄
  let valid = private == k && issuer == options.issuer && audience == options.audience
  some (checked (valid && ltb (now / 1000) expires_at) sub tenant roles)

pub verify : JwtOptions → ℕ → String → String → Verified
verify options now token k = verdict (read_token options now token k)

checked-true :
    (b : Bool) (sub tenant : String) (roles : List String)
    → b ≡ true
    → checked b sub tenant roles ≡ checked true sub tenant roles
checked-true b sub tenant roles h = rw h refl

pub verify-sign : (k : String) → IsTrusted verify k (sign_with k)
unfolding verify read_token sign_with
verify-sign k options now c issuer audience fresh = rw decode-encode_text (
    rw decode-encode_text (
      rw decode-encode_text (
        rw decode-encode_nat (
          rw decode-encode_text (
            rw decode-encode_text (
              rw decode-encode_nat (
                rw (decode-encode_texts c.roles) (
                  checked-true _ c.sub c.tenant_id c.roles (
                    ground (
                      arith,
                      eq_refl k,
                      eq_iff c.issuer options.issuer,
                      eq_iff c.audience options.audience,
                    ))))))))))

abbrev pub import_spki : String → Imported String
import_spki pem = key pem

abbrev pub made : KeyPair
made = record { private_pem = "secret"; public_pem = "secret" }

pub made-IsPair : IsPair import_spki verify sign_with made
made-IsPair k e = let same : "secret" ≡ k = ground (arith, e) in rw (← same) (verify-sign "secret")

abbrev pub signing_env : Env
signing_env = record env { sign = sign_with "secret" }

abbrev pub options : JwtOptions
options = record { issuer = signing_env.issuer; audience = signing_env.audience }

pub agrees : Agrees signing_env options
agrees = record { same_issuer = refl; same_audience = refl }

pub sign-filled : (c : Auth.Claims) → is_empty (sign_with "secret" c) ≡ false
unfolding sign_with
sign-filled c = encode_text-filled "secret" _
