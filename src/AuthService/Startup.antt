-- ===== src/AuthService/Startup.antt =====
-- services/auth-service/src/server.js: what the service sets up before its handlers. Redis, Kafka,
-- the file system and the making of keys are packages.
use aiself_healer.Common.{
  String, Bool, ◌&&◌, ◌||◌, not, Option, none, some, ◌==◌, if◌then◌else◌, text_or, truthy,
}

-- The client to connect, none where Redis is switched off.
unfoldable pub create_redis : (String → Option String) → Option String
create_redis env =
    if text_or (env "NODE_ENV") "" == "test" || text_or (env "DISABLE_REDIS") "" == "true"
    then none
    else some (text_or (env "REDIS_URL") "redis://localhost:6379/0")

pub record KeyPair : Type 0 where
  pub private_pem : String
  pub public_pem : String

-- The file of a path that is set, if it is there.
abbrev pub file_at : (String → Option String) → Option String → Option String
file_at read_file none = none
file_at read_file (some path) = if truthy (some path) then read_file path else none

-- the two files, or a pair that is made
abbrev pub pair_or : KeyPair → Option String → Option String → KeyPair
pair_or generated (some private) (some public) = record {
  private_pem = private;
  public_pem = public;
}
pair_or generated none public = generated
pair_or generated (some private) none = generated

unfoldable pub read_or_create_keys :
    (String → Option String) → (String → Option String) → KeyPair → KeyPair
read_or_create_keys env read_file generated =
    pair_or generated (file_at read_file (env "JWT_PRIVATE_KEY_PATH"))
      (file_at read_file (env "JWT_PUBLIC_KEY_PATH"))

-- The brokers of a producer that connects; none where Kafka is not configured or does not answer.
-- The list of brokers is passed on as it is written.
unfoldable pub create_kafka_producer : (String → Option String) → (String → Bool) → Option String
create_kafka_producer env connects = elim (env "KAFKA_BROKERS") [
  | none ↦ none
  | some brokers ↦
      if not (truthy (some brokers)) || text_or (env "NODE_ENV") "" == "test"
      then none
      else if connects brokers
      then some brokers
      else none
]

-- whether the strategy of Google is registered
abbrev pub has_google : (String → Option String) → Bool
has_google env = truthy (env "GOOGLE_CLIENT_ID") && truthy (env "GOOGLE_CLIENT_SECRET")

-- the answers of `/auth/public-key`, `/auth/oauth/google` and `/auth/me` that are not constant
abbrev pub public_key_answer : KeyPair → String
public_key_answer keys = keys.public_pem

abbrev pub google_enabled : (String → Option String) → Bool
google_enabled env = truthy (env "GOOGLE_CLIENT_ID")

abbrev pub me_authenticated : Option String → Bool
me_authenticated authorization = truthy authorization
