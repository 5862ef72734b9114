-- ===== src/Tests/Samples.antt =====
-- Concrete packages for the tests: a codec of sessions, and the environment of the services.
use Prim.Native.Char.{Char, code}
use aiself_healer.Common.{
  ℕ, zero, suc, String, true, false, Option, none, some, nat_eq, if◌then◌else◌, ◌≡◌, refl, arith,
  eq_refl, ◌==◌, is_empty,
}
use aiself_healer.AuthService.TokenStore.{Session, Codec}
use aiself_healer.AuthService.Server.State.{Env}
use aiself_healer.Gateway.MemoryRedis.Client.{memory_client}

-- A text with a mark before each character and another behind the last.
unfoldable pub encode_text : String → String → String
encode_text String.[] rest = String.◌∷◌ "0" rest
encode_text (String.◌∷◌ c s) rest = String.◌∷◌ "1" (String.◌∷◌ c (encode_text s rest))

abbrev pub prefix_char : Char → Option (String × String) → Option (String × String)
prefix_char c none = none
prefix_char c (some (s, rest)) = some (String.◌∷◌ c s, rest)

unfoldable pub decode_text : String → Option (String × String)
decode_text String.[] = none
decode_text (String.◌∷◌ m String.[]) = if nat_eq (code m) b'0' then some ("", "") else none
decode_text (String.◌∷◌ m (String.◌∷◌ c s)) =
    let more = decode_text s in
    if nat_eq (code m) b'0' then some ("", String.◌∷◌ c s) else prefix_char c more

pub decode-encode_text : (s rest : String) → decode_text (encode_text s rest) ≡ some (s, rest)
unfolding decode_text encode_text
decode-encode_text String.[] String.[] = refl
decode-encode_text String.[] (String.◌∷◌ c rest) = refl
decode-encode_text (String.◌∷◌ c s) rest = ground (arith, decode-encode_text s rest)

unfoldable pub encode_nat : ℕ → String → String
encode_nat zero rest = String.◌∷◌ "0" rest
encode_nat (suc n) rest = String.◌∷◌ "1" (encode_nat n rest)

abbrev pub suc_first : Option (ℕ × String) → Option (ℕ × String)
suc_first none = none
suc_first (some (n, rest)) = some (suc n, rest)

unfoldable pub decode_nat : String → Option (ℕ × String)
decode_nat String.[] = none
decode_nat (String.◌∷◌ m s) =
    let more = decode_nat s in if nat_eq (code m) b'0' then some (zero, s) else suc_first more

pub decode-encode_nat : (n : ℕ) (rest : String) → decode_nat (encode_nat n rest) ≡ some (n, rest)
unfolding decode_nat encode_nat
decode-encode_nat zero rest = refl
decode-encode_nat (suc n) rest = ground (arith, decode-encode_nat n rest)

infixl 5 ◌>>=◌
abbrev pub ◌>>=◌ {ℓ κ} : {A : Type ℓ} {B : Type κ} → Option A → (A → Option B) → Option B
none >>= k = none
some a >>= k = k a

pub encode_text-filled : (t rest : String) → is_empty (encode_text t rest) ≡ false
unfolding encode_text
encode_text-filled String.[] rest = refl
encode_text-filled (String.◌∷◌ c t) rest = refl

pub encode : Session → String
encode s =
    encode_text s.token_id
      (encode_text s.user_id (encode_text s.tenant_id (encode_nat s.expires_at "")))

pub decode : String → Option Session
decode raw = do
  (token_id, r₁) ← decode_text raw
  (user_id, r₂) ← decode_text r₁
  (tenant_id, r₃) ← decode_text r₂
  (expires_at, r₄) ← decode_nat r₃
  some (record {
    token_id = token_id;
    user_id = user_id;
    tenant_id = tenant_id;
    expires_at = expires_at;
  })

pub decode-encode : (s : Session) → decode (encode s) ≡ some s
unfolding decode encode
decode-encode s =
    rw decode-encode_text
      (rw decode-encode_text (rw decode-encode_text (rw decode-encode_nat refl)))

pub encode-filled : (s : Session) → is_empty (encode s) ≡ false
unfolding encode
encode-filled s = encode_text-filled s.token_id _

abbrev pub codec : Codec
codec = record {
  encode = encode;
  decode = decode;
  decode-encode = decode-encode;
  encode-filled = encode-filled;
}

abbrev pub env : Env
env = record {
  client = memory_client;
  json = codec;
  hash = λ salt password. password;
  compare = λ password hash. password == hash;
  compare-hash = λ salt password. eq_refl password;
  sign = λ claims. claims.sub;
  access_ttl = 900;
  refresh_ttl = 5;
  issuer = "neuralmesh-auth";
  audience = "neuralmesh";
  has_producer = true;
}
