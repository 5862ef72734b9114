-- ===== src/Platform/Keys.antt =====
-- The gateway that fetches the public key of the authentication service, while that one starts.
use aiself_healer.Common.{
  ℕ, ◌+◌, ◌<◌, String, true, false, Option, none, some, ◌≡◌, ◌∙◌, ap, arith, is_empty, Option-cases,
  inl, inr,
}
use aiself_healer.AuthService.Server.State as Auth
use aiself_healer.AuthService.Server.State.{Env, User}
use aiself_healer.AuthService.Server.Handlers.{tokens_of, claims_of}
use aiself_healer.AuthService.Startup.{KeyPair, file_at, public_key_answer, read_or_create_keys}
use aiself_healer.Gateway.Auth.{Request, loaded, Verified, JwtOptions, next, require_jwt, accept}
use aiself_healer.Gateway.Auth.Keys.{
  KeyEnv, Fetched, ok, Imported, key, Failed, fetch_key_first, from_path, from_url, load_public_key,
}
use aiself_healer.Platform.Tokens.{claims_read, Bears, bearer-accept, IsTrusted, Agrees, IsFresh}

module _ {K : Type 0} (import_spki : String → Imported K) (read_file : String → Option String)
    (fetch : String → ℕ → Fetched) (k : K) where
  -- A gateway that has only a URL takes the key that it fetches from there.
  load-fetched :
      (settings : KeyEnv) (url pem : String) (skip : ℕ)
      → settings.inline ≡ none
      → settings.path ≡ none
      → settings.url ≡ some url
      → is_empty url ≡ false
      → settings.has_fetch ≡ true
      → skip < 10
      → ((i : ℕ) → i < skip → Failed (fetch url i))
      → fetch url skip ≡ ok pem
      → import_spki pem ≡ key k
      → load_public_key import_spki read_file fetch settings ≡ loaded k
  unfolding load_public_key from_path from_url
  load-fetched settings url pem skip no_inline no_path given filled has soon before good imports =
      let found =
        fetch_key_first import_spki fetch url pem 10 0 skip soon
          (λ i lt. let e : 0 + i ≡ i = omega arith in rw e (before i lt))
          (let e : 0 + skip ≡ skip = omega arith in rw e good) in
      ground (arith, no_inline, no_path, given, filled, has, found, imports)

-- Under the key that the public text imports as, what is signed with the private text verifies as
-- the package documents.
abbrev pub IsPair :
    {K : Type 0}
    → (String → Imported K)
    → (JwtOptions → ℕ → String → K → Verified)
    → (String → Auth.Claims → String)
    → KeyPair
    → Type 0
IsPair {K} import_spki jwt_verify sign_with pair =
    (k : K)
    → import_spki pair.public_pem ≡ key k
    → IsTrusted jwt_verify k (sign_with pair.private_pem)

-- The keys of the service are a pair if those that are made are, and any that two files hold.
read_or_create_keys-IsPair :
    {K : Type 0} (import_spki : String → Imported K)
    (jwt_verify : JwtOptions → ℕ → String → K → Verified)
    (sign_with : String → Auth.Claims → String) (env read_file : String → Option String)
    (made : KeyPair)
    → IsPair import_spki jwt_verify sign_with made
    → ((p q : String)
        → file_at read_file (env "JWT_PRIVATE_KEY_PATH") ≡ some p
        → file_at read_file (env "JWT_PUBLIC_KEY_PATH") ≡ some q
        → IsPair import_spki jwt_verify sign_with (record { private_pem = p; public_pem = q }))
    → IsPair import_spki jwt_verify sign_with (read_or_create_keys env read_file made)
unfolding read_or_create_keys
read_or_create_keys-IsPair import_spki jwt_verify sign_with env read_file made good files =
    elim (Option-cases (file_at read_file (env "JWT_PRIVATE_KEY_PATH"))) [
      | inl missing ↦ rw (missing, read_or_create_keys) good
      | inr (p, e) ↦ elim (Option-cases (file_at read_file (env "JWT_PUBLIC_KEY_PATH"))) [
        | inl missing ↦ rw (e, missing, read_or_create_keys) good
        | inr (q, e') ↦ rw (e, e', read_or_create_keys) (files p q e e')
      ]
    ]

-- A gateway with nothing but the URL of the service's public key, whose loop reaches the service
-- within its ten attempts, takes every request that bears an access token of the service on as the
-- account of the token until it expires, if the keys that the service makes or reads are a pair and
-- the issuer and the audience that it signs are those that the gateway asks for.
pub fetched-accept :
    {K : Type 0} (import_spki : String → Imported K)
    (jwt_verify : JwtOptions → ℕ → String → K → Verified)
    (sign_with : String → Auth.Claims → String) (auth_env auth_files : String → Option String)
    (made : KeyPair) (env : Env) (gateway_files : String → Option String)
    (fetch : String → ℕ → Fetched) (settings : KeyEnv) (url : String) (skip : ℕ) (k : K)
    → let keys = read_or_create_keys auth_env auth_files made in
      IsPair import_spki jwt_verify sign_with made
      → ((p q : String)
          → file_at auth_files (auth_env "JWT_PRIVATE_KEY_PATH") ≡ some p
          → file_at auth_files (auth_env "JWT_PUBLIC_KEY_PATH") ≡ some q
          → IsPair import_spki jwt_verify sign_with (record { private_pem = p; public_pem = q }))
      → ((c : Auth.Claims) → env.sign c ≡ sign_with keys.private_pem c)
      → ((c : Auth.Claims) → is_empty (env.sign c) ≡ false)
      → settings.inline ≡ none
      → settings.path ≡ none
      → settings.url ≡ some url
      → is_empty url ≡ false
      → settings.has_fetch ≡ true
      → skip < 10
      → ((i : ℕ) → i < skip → Failed (fetch url i))
      → fetch url skip ≡ ok (public_key_answer keys)
      → import_spki keys.public_pem ≡ key k
      → (options : JwtOptions) → Agrees env options
      → (user : User) (r : Auth.Readings) (now : ℕ) (req : Request) → IsFresh env r now
      → Bears req (tokens_of env r user).access_token
      → require_jwt
          (jwt_verify options now)
          (load_public_key import_spki gateway_files fetch settings)
          req
        ≡ next (accept req (claims_read (claims_of env r user)))
fetched-accept import_spki jwt_verify sign_with auth_env auth_files made env gateway_files fetch
      settings url skip k good files signs filled no_inline no_path given named has soon before
      answers imports options agrees user r now req fresh b =
    let keys = read_or_create_keys auth_env auth_files made in
    let pair =
      read_or_create_keys-IsPair import_spki jwt_verify sign_with auth_env auth_files made good
        files in
    let trusted : IsTrusted jwt_verify k env.sign =
      λ o t c i a e. ap (λ token. jwt_verify o t token k) (signs c) ∙ pair k imports o t c i a e in
    rw
      (load-fetched import_spki gateway_files fetch k settings url keys.public_pem skip no_inline
        no_path given named has soon before answers imports)
      (bearer-accept jwt_verify k env trusted filled options agrees user r now req fresh b)
