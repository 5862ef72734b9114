-- ===== src/Gateway/Auth/Keys.antt =====
-- `loadPublicKey` of auth.js: a key from the environment, from a file, or fetched with retries.
-- `importSPKI` (jose), the file and the responses of `fetch` are arguments.
use Prim.Native.Char.{Char, code}
use aiself_healer.Common.{
  ℕ, zero, suc, ◌+◌, ◌<◌, String, Bool, true, ◌&&◌, ◌||◌, Option, none, some, if◌then◌else◌, nat_eq,
  truthy, ◌≡◌, ◌⊎◌, refl, arith, inl, inr, Option-cases, ◌≢◌, ap, ◌∙◌,
}
use aiself_healer.Gateway.Auth.{PublicKey, loaded, unsigned, failed}

abbrev newline : Char
newline = "\n"

-- `inline.replace(/\\n/g, "\n")`: each backslash with an n behind it becomes a newline.
unfoldable pub unescape : String → String
unescape String.[] = ""
unescape (String.◌∷◌ c String.[]) = String.◌∷◌ c ""
unescape (String.◌∷◌ c (String.◌∷◌ d s)) =
    let escaped = String.◌∷◌ newline (unescape s) in
    let plain = String.◌∷◌ c (unescape (String.◌∷◌ d s)) in
    if nat_eq (code c) b'\\' && nat_eq (code d) b'n' then escaped else plain

-- A response of `fetch`: its text, a status that is not ok, or an exception.
pub data Fetched : Type 0 where
  ok : String → Fetched
  refused : Fetched
  thrown : Fetched

-- What an import gives: a key, or an exception with its message.
pub data Imported (K : Type 0) : Type 0 where
  key : K → Imported K
  bad : String → Imported K

abbrev pub imported : {K : Type 0} → Imported K → PublicKey K
imported (key k) = loaded k
imported (bad message) = failed message

-- The variables that the function reads.
pub record KeyEnv : Type 0 where
  pub inline : Option String
  pub path : Option String
  pub url : Option String
  pub has_fetch : Bool
  pub is_test : Bool
  pub allow_unsigned : Bool

-- the message of the exception at the end
abbrev pub not_configured : String
not_configured = "JWT public key not configured. Set JWT_PUBLIC_KEY or JWT_PUBLIC_KEY_PATH."

abbrev pub Failed : Fetched → Type 0
Failed r = (r ≡ refused) ⊎ (r ≡ thrown)

module _ {K : Type 0} (import_spki : String → Imported K) (fetch : String → ℕ → Fetched) where
  -- the loop of ten attempts: `left` of them to go, the next one numbered `attempt`. The `return`
  -- in the `try` does not wait for the import, so a key that fails to import is not retried.
  unfoldable pub fetch_key : String → ℕ → ℕ → Option (PublicKey K)
  fetch_key url zero attempt = none
  fetch_key url (suc left) attempt = elim (fetch url attempt) [
    | ok text ↦ some (imported (import_spki text))
    | refused ↦ fetch_key url left (attempt + 1)
    | thrown ↦ fetch_key url left (attempt + 1)
  ]

  pub fetch_key_skip :
      (url : String) (left attempt : ℕ)
      → Failed (fetch url attempt)
      → fetch_key url (suc left) attempt ≡ fetch_key url left (attempt + 1)
  unfolding fetch_key
  fetch_key_skip url left attempt (inl e) = rw (e, fetch_key) refl
  fetch_key_skip url left attempt (inr e) = rw (e, fetch_key) refl

  -- The loop gives the key of the first ok response, if that comes within its attempts.
  pub fetch_key_first :
      (url text : String) (left attempt skip : ℕ)
      → skip < left
      → ((i : ℕ) → i < skip → Failed (fetch url (attempt + i)))
      → fetch url (attempt + skip) ≡ ok text
      → fetch_key url left attempt ≡ some (imported (import_spki text))
  unfolding fetch_key
  fetch_key_first url text zero attempt skip h before good = absurd (omega arith)
  fetch_key_first url text (suc left) attempt zero h before good =
      rw ((let e : attempt ≡ attempt + 0 = omega arith in ap (fetch url) e ∙ good), fetch_key) refl
  fetch_key_first url text (suc left) attempt (suc skip) h before good =
      fetch_key_skip url left attempt
        (let e : attempt + 0 ≡ attempt = omega arith in rw e at (before 0 (omega arith)))
      ∙ fetch_key_first url text left (attempt + 1) skip (omega arith)
          (λ i lt.
            let e : attempt + suc i ≡ attempt + 1 + i = omega arith in
            rw e at (before (suc i) (omega arith)))
          (let e : attempt + suc skip ≡ attempt + 1 + skip = omega arith in rw e at good)

  -- The loop gives nothing when every attempt fails.
  fetch_key-none :
      (url : String) (left attempt : ℕ)
      → ((i : ℕ) → i < left → Failed (fetch url (attempt + i)))
      → fetch_key url left attempt ≡ none
  unfolding fetch_key
  fetch_key-none url zero attempt before = refl
  fetch_key-none url (suc left) attempt before =
      fetch_key_skip url left attempt
        (let e : attempt + 0 ≡ attempt = omega arith in rw e at (before 0 (omega arith)))
      ∙ fetch_key-none url left (attempt + 1) (λ i lt.
        let e : attempt + suc i ≡ attempt + 1 + i = omega arith in
        rw e at (before (suc i) (omega arith)))

  fetch_key-ne-unsigned :
      (url : String) (left attempt : ℕ) → fetch_key url left attempt ≢ some unsigned
  unfolding fetch_key
  fetch_key-ne-unsigned url zero attempt = cc
  fetch_key-ne-unsigned url (suc left) attempt =
      λ e. ground (arith, fetch_key-ne-unsigned url left (attempt + 1))

module _ {K : Type 0} (import_spki : String → Imported K) (read_file : String → Option String)
    (fetch : String → ℕ → Fetched) where
  unfoldable pub fallback : KeyEnv → PublicKey K
  fallback env = if env.is_test || env.allow_unsigned then unsigned else failed not_configured

  unfoldable pub from_url : KeyEnv → PublicKey K
  from_url env = elim env.url [
    | none ↦ fallback env
    | some url ↦
        if truthy (some url) && env.has_fetch
        then (elim (fetch_key import_spki fetch url 10 0) [
          | some found ↦ found
          | none ↦ fallback env
        ])
        else fallback env
  ]

  unfoldable pub from_path : KeyEnv → PublicKey K
  from_path env = elim env.path [
    | none ↦ from_url env
    | some path ↦ elim (read_file path) [
      | none ↦ from_url env
      | some pem ↦ if truthy (some path) then imported (import_spki pem) else from_url env
    ]
  ]

  unfoldable pub load_public_key : KeyEnv → PublicKey K
  load_public_key env = elim env.inline [
    | none ↦ from_path env
    | some pem ↦ if truthy (some pem) then imported (import_spki (unescape pem)) else from_path env
  ]

  from_url-unsigned :
      (env : KeyEnv) → from_url env ≡ unsigned → (env.is_test ≡ true) ⊎ (env.allow_unsigned ≡ true)
  unfolding from_url fallback
  from_url-unsigned env e = elim (Option-cases env.url) [
    | inl missing ↦ ground arith
    | inr (url, given) ↦ ground (arith, fetch_key-ne-unsigned import_spki fetch url 10 0)
  ]

  -- The gateway runs without a key only in the test mode or with the development switch.
  pub load_public_key-unsigned :
      (env : KeyEnv)
      → load_public_key env ≡ unsigned
      → (env.is_test ≡ true) ⊎ (env.allow_unsigned ≡ true)
  unfolding load_public_key from_path
  load_public_key-unsigned env e = ground (arith, from_url-unsigned env)
