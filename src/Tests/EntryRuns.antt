-- ===== src/Tests/EntryRuns.antt =====
-- What comes to the services from outside: keys at the start, failures of Redis, Kafka's messages.
use aiself_healer.Common.{
  ℕ, ◌≤◌, ◌<◌, String, true, false, Option, some, none, List, [], ◌∷◌, Memᴰ, ◌≡◌, refl, arith, take,
  nat_eq, if◌then◌else◌, ◌==◌,
}
use aiself_healer.JsMap
use aiself_healer.AuthService.Startup.{read_or_create_keys}
use aiself_healer.AuthService.Server.Handlers.{claims_of}
use aiself_healer.Gateway.MemoryRedis.{init}
use aiself_healer.Gateway.Auth.{Request, next, require_jwt, accept}
use aiself_healer.Gateway.Auth.Keys.{
  KeyEnv, Fetched, ok, refused, thrown, Failed, fetch_key, load_public_key,
}
use aiself_healer.Gateway.Auth.Retries.{Runs, attempts, fetch_key-Runs}
use aiself_healer.Gateway.Server.{handle, status_of}
use aiself_healer.Frontend.Api.{
  answered, ChaosRun, trigger_chaos, opened, chaos_settled, dry_run_local,
}
use aiself_healer.Frontend.Realtime.{healing, after, shown}
use aiself_healer.Notification.Dedupe.{Alert}
use aiself_healer.Platform.Tokens.{claims_read}
use aiself_healer.Platform.Keys.{fetched-accept}
use aiself_healer.Platform.Chaos.{is_ok, Arrives, chaos-dry_run_local}
use aiself_healer.Frontend.Session.{chaos_fetch}
use aiself_healer.Platform.Live.{Delivery, received, payloads, topics_of, received-shown}
use aiself_healer.Tests.Signing.{
  sign_with, verify, import_spki, made, made-IsPair, signing_env, sign-filled, options, agrees,
}
use aiself_healer.Tests.RoutingRuns as Routing
use aiself_healer.Tests.RoutingRuns.{asks}
use aiself_healer.Tests.AuthRuns.{bob}
use aiself_healer.Tests.AuthRuns as AuthRuns
use aiself_healer.Tests.PlatformRuns.{request_of, bears}
use aiself_healer.Tests.NotificationRuns.{alert}

-- The service answers at the third attempt.
abbrev third_time : String → ℕ → Fetched
third_time url attempt =
    if nat_eq attempt 0 then refused else if nat_eq attempt 1 then thrown else ok "secret"

first_two_fail : (i : ℕ) → i < 2 → Failed (third_time "u" i)
first_two_fail i h = ground arith

abbrev only_url : KeyEnv
only_url = record {
  inline = none;
  path = none;
  url = some "u";
  has_fetch = true;
  is_test = false;
  allow_unsigned = false;
}

abbrev unset : String → Option String
unset name = none

fetched-accept_example :
    require_jwt
      (verify options 1000)
      (load_public_key import_spki unset third_time only_url)
      (request_of bob)
    ≡ next
        (accept (request_of bob) (claims_read (claims_of signing_env (AuthRuns.readings "1") bob)))
unfolding read_or_create_keys
fetched-accept_example =
    fetched-accept import_spki verify sign_with unset unset made signing_env unset third_time
      only_url "u" 2 "secret" made-IsPair (λ p q e. absurd (ground (arith, e))) (λ c. refl)
      sign-filled refl refl refl refl refl (omega arith) first_two_fail refl refl options agrees bob
      (AuthRuns.readings "1") 1000 (request_of bob) (omega arith) (bears bob)

fetch_key-Runs_example :
    ((calls : ℕ) × (time : ℕ) × Runs import_spki third_time "u" 0 calls time
        (fetch_key import_spki third_time "u" attempts 0)
      × (calls ≤ attempts)
      × (time ≤ 5000))
    × ((calls time : ℕ) (found : Option _)
        → Runs import_spki third_time "u" 0 calls time found
        → found ≡ fetch_key import_spki third_time "u" attempts 0)
fetch_key-Runs_example = fetch_key-Runs import_spki third_time "u"

abbrev clicks : Request
clicks = record (asks "POST" "op") { path = "/api/v1/chaos/run"; access_token = none }

abbrev completed : ChaosRun
completed = record {
  experiment = some "latency";
  service_name = some "data-service";
  status = some "completed";
  result = some "done";
}

arrives : Arrives (chaos_fetch "latency" (some "data-service")) clicks
unfolding JsMap.get chaos_fetch
arrives = record { same_path = refl; same_header = refl; no_cookie = refl }

chaos-dry_run_local_example :
    ((handle Routing.config init (Routing.readings 1000) clicks none).0 ≡ init)
    × (chaos_settled opened (
          trigger_chaos (
            answered
              (is_ok
                (status_of (handle Routing.config init (Routing.readings 1000) clicks none).1 200))
              (some completed)))
        ≡ record opened { last_chaos = some dry_run_local })
chaos-dry_run_local_example =
    chaos-dry_run_local Routing.config init (Routing.readings 1000) clicks none "latency"
      (some "data-service") opened 200 (some completed) arrives

abbrev parse : String → Option String
parse text = if text == "{" then none else some text

abbrev deliveries : List Delivery
deliveries =
    record { topic = "neuralmesh.healing.complete"; value = some "done" }
    ∷ record { topic = "neuralmesh.healing.complete"; value = some "{" }
    ∷ record { topic = "neuralmesh.healing.started"; value = none }
    ∷ record { topic = "neuralmesh.notification.sent"; value = some "mail" }
    ∷ []

received-shown_example :
    (after String (received parse deliveries)).slices healing
    ≡ take shown (payloads parse (topics_of healing) deliveries)
received-shown_example = received-shown parse healing deliveries (
  Memᴰ.tail (Memᴰ.tail (Memᴰ.head refl)),
  (
    Memᴰ.tail (Memᴰ.tail (Memᴰ.head refl)),
    (
      Memᴰ.tail (Memᴰ.head refl),
      (
        Memᴰ.tail (
            Memᴰ.tail (Memᴰ.tail (Memᴰ.tail (Memᴰ.tail (Memᴰ.tail (Memᴰ.tail (Memᴰ.head refl))))))),
        tt,
      ),
    ),
  ),
)

both_shown : payloads parse (topics_of healing) deliveries ≡ "done" ∷ "{}" ∷ []
unfolding payloads
both_shown = refl

abbrev reads : String → Option Alert
reads text = if text == "alert" then some alert else none
