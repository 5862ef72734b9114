-- ===== src/Gateway/Server/Throttle.antt =====
-- How many requests of a caller pass the gateway: the limiter of
-- services/api-gateway/src/rateLimit.js in the chain of services/api-gateway/src/server.js, whose
-- other steps use the same Redis.
use mathlib.Core.Path.{subst}
use aiself_healer.Common.{
  ℕ, ◌+◌, ◌*◌, ◌≤◌, ◌<◌, ap, String, Bool, true, false, ◌&&◌, Option, none, some, List, [], ◌∷◌,
  ◌==◌, ◌≡◌, ◌∙◌, refl, arith, ltb, leb, inl, inr, text_or, if◌then◌else◌, Bool-cases, not,
}
use aiself_healer.Gateway.MemoryRedis as Memory
use aiself_healer.Gateway.MemoryRedis.{MemoryRedis, init}
use aiself_healer.Gateway.RateLimit.{
  check_rate_limit, rate_limit_middleware, limit_of, window_of, identity,
}
use aiself_healer.Gateway.RateLimit.Window.{
  Call, IsOrdered, after, allows, granted, granted-le-limit,
}
use aiself_healer.Gateway.RateLimit.Spacing.{IsSpaced, allows_spaced}
use aiself_healer.Gateway.Auth.{Request, next, deny, header, require_jwt}
use aiself_healer.Gateway.Routing.{Route, sub_of}
use aiself_healer.Gateway.Server.{
  verify_at, Config, Readings, Reply, rate_limited, list_routes, put_routes, dispatch, limited,
  handle,
}
use aiself_healer.Gateway.Server.Table.{Outcome-cases}
use aiself_healer.Gateway.Server.Listing.{Input, respond}

-- Two clients that the limiter cannot tell apart.
abbrev Alike : MemoryRedis → MemoryRedis → Type 0
Alike a b = a.sorted_sets ≡ b.sorted_sets

check_rate_limit-Alike :
    (a b : MemoryRedis) (now : ℕ) (member user : String) (limit window : ℕ)
    → Alike a b
    → ((check_rate_limit a now member user limit window).0
        ≡ (check_rate_limit b now member user limit window).0)
      × Alike
          (check_rate_limit a now member user limit window).1
          (check_rate_limit b now member user limit window).1
unfolding check_rate_limit Memory.exec Memory.run_op Memory.zremrangebyscore Memory.zadd
    Memory.zcard Memory.expire Memory.items
check_rate_limit-Alike a b now member user limit window same = (rw same refl, rw same refl)

module _ (config : Config) where
  abbrev limit : ℕ
  limit = limit_of none config.per_minute

  module _ (redis : MemoryRedis) (r : Readings) (req : Request) where
    list_routes-Alike : Alike (list_routes config redis r req).0 redis
    unfolding list_routes Memory.get
    list_routes-Alike = ground arith

    put_routes-Alike :
        (body : Option (List Route)) → Alike (put_routes config redis r req body).0 redis
    unfolding put_routes Memory.set
    put_routes-Alike body = ground arith

    dispatch-Alike :
        (i : String) (body : Option (List Route))
        → Alike (dispatch config redis r i req body).0 redis
    unfolding dispatch
    dispatch-Alike i body = ground (arith, list_routes-Alike, put_routes-Alike body)

  abbrev call_at : Readings → Request → Call
  call_at r req = record {
    at = r.limited_at;
    user = identity (sub_of req.user) req.ip;
    member = r.nonce;
  }

  -- the call of the limiter that a request makes, if the token check lets it through
  unfoldable pub call_of : Input → Option Call
  call_of c = elim (require_jwt (verify_at config c.readings) config.key c.request) [
    | deny d ↦ none
    | next req ↦ some (call_at c.readings req)
  ]

  abbrev pub is_limited : Reply → Bool
  is_limited (rate_limited reset) = true
  is_limited _ = false

  abbrev pub cons_call : Option Call → List Call → List Call
  cons_call none calls = calls
  cons_call (some call) calls = call ∷ calls

  -- the calls of the requests, the latest first
  abbrev pub calls_of : List Input → List Call
  calls_of [] = []
  calls_of (c ∷ cs) = cons_call (call_of c) (calls_of cs)

  -- the Redis after requests, the latest first
  unfoldable pub served : List Input → MemoryRedis
  served [] = init
  served (c ∷ cs) = (respond config (served cs) c).0

  -- What a request does to the limiter, and when it is not refused by it.
  record Limits (redis : MemoryRedis) (call : Call) (result : MemoryRedis × Reply) : Type 0 where
    moved :
        Alike result.0
          (check_rate_limit redis call.at call.member call.user limit (window_of none)).1
    granted :
        is_limited result.1 ≡ false
        → (check_rate_limit redis call.at call.member call.user limit (window_of none)).0.allowed
          ≡ true

  limited-Limits :
      (redis : MemoryRedis) (r : Readings) (req : Request) (i : String) (body : Option (List Route))
      → Limits redis (call_at r req) (limited config redis r i req body)
  unfolding limited rate_limit_middleware
  limited-Limits redis r req i body =
      let checked =
        check_rate_limit redis r.limited_at r.nonce (identity (sub_of req.user) req.ip) limit
          (window_of none) in
      elim (Bool-cases checked.0.allowed) [
        | inl within ↦
            rw (within, limited, rate_limit_middleware)
              (record { moved = dispatch-Alike checked.1 r req i body; granted = λ h. within })
        | inr over ↦
            rw (over, limited, rate_limit_middleware) (record { moved = refl; granted = λ h. cc })
      ]

  -- Either the token check refuses a request, or the request makes a call of the limiter.
  data Answers (redis : MemoryRedis) (c : Input) : Type 0 where
    refuses : call_of c ≡ none → (respond config redis c).0 ≡ redis → Answers redis c
    calls :
        (call : Call)
        → call_of c ≡ some call
        → Limits redis call (respond config redis c)
        → Answers redis c

  respond-Answers : (redis : MemoryRedis) (c : Input) → Answers redis c
  unfolding handle call_of
  respond-Answers redis c =
      elim (Outcome-cases (require_jwt (verify_at config c.readings) config.key c.request)) [
        | inl (d, e) ↦ refuses (rw (e, call_of) refl) (rw (e, handle) refl)
        | inr (req, e) ↦ calls (call_at c.readings req) (rw (e, call_of) refl) (
            rw (e, handle)
              (limited-Limits redis c.readings req
                (text_or (header "x-request-id" c.request) c.readings.request_uuid) c.body))
      ]

  served-Alike : (cs : List Input) → Alike (served cs) (after limit (window_of none) (calls_of cs))
  unfolding served after
  served-Alike [] = refl
  served-Alike (c ∷ cs) = elim (respond-Answers (served cs) c) [
    | refuses e same ↦ rw (e, same) (served-Alike cs)
    | calls call e h ↦ rw e (
        h.moved
        ∙ (check_rate_limit-Alike (served cs) (after limit (window_of none) (calls_of cs)) call.at
            call.member call.user limit (window_of none) (served-Alike cs)).1)
  ]

  -- What the limiter allows goes on to the routes.
  limited-dispatch :
      (redis : MemoryRedis) (r : Readings) (req : Request) (i : String) (body : Option (List Route))
      → (let call = call_at r req in
          let checked =
            check_rate_limit redis call.at call.member call.user limit (window_of none) in
          checked.0.allowed ≡ true
          → limited config redis r i req body ≡ dispatch config checked.1 r i req body)
  unfolding limited rate_limit_middleware
  limited-dispatch redis r req i body allowed = rw (allowed, limited, rate_limit_middleware) refl

  -- A request of a caller that leaves a gap between its calls, of which as many as the limit fill a
  -- minute, goes on to the routes.
  pub spaced-dispatch :
      (cs : List Input) (c : Input) (req : Request) (gap : ℕ)
      → 0 < limit
      → window_of none * 1000 ≤ limit * gap
      → require_jwt (verify_at config c.readings) config.key c.request ≡ next req
      → IsOrdered (calls_of (c ∷ cs))
      → IsSpaced (identity (sub_of req.user) req.ip) gap (calls_of (c ∷ cs))
      → (redis : MemoryRedis) × ((respond config (served cs) c).1
          ≡ (dispatch config redis c.readings
              (text_or (header "x-request-id" c.request) c.readings.request_uuid)
              req
              c.body).1)
  unfolding handle call_of allows
  spaced-dispatch cs c req gap some_limit enough let_in o s =
      let call = call_at c.readings req in
      let own : calls_of (c ∷ cs) ≡ call ∷ calls_of cs = rw (let_in, call_of) refl in
      let allowed =
        allows_spaced limit (window_of none) gap (calls_of cs) call some_limit enough
          (subst IsOrdered own o) (subst (IsSpaced call.user gap) own s) in
      let same =
        (check_rate_limit-Alike (served cs) (after limit (window_of none) (calls_of cs)) call.at
          call.member call.user limit (window_of none) (served-Alike cs)).0 in
      (
        (check_rate_limit (served cs) call.at call.member call.user limit (window_of none)).1,
        rw (let_in, handle)
            (ap (λ p. p.1)
              (limited-dispatch (served cs) c.readings req _ c.body
                (ap (λ d. d.allowed) same ∙ allowed))),
      )

  -- whether a call is of a user, and in the minute after a time
  abbrev pub is_in : ℕ → String → Call → Bool
  is_in start user call =
      call.user == user && ltb start call.at && leb call.at (start + window_of none * 1000)

  abbrev pub counts : ℕ → String → Option Call → Reply → Bool
  counts start user none reply = false
  counts start user (some call) reply = is_in start user call && not (is_limited reply)

  -- The requests of a user in the minute after `start` that the token check and the limiter let
  -- through.
  pub passed : ℕ → String → List Input → ℕ
  passed start user [] = 0
  passed start user (c ∷ cs) =
      (if counts start user (call_of c) (respond config (served cs) c).1 then 1 else 0)
      + passed start user cs

  passed-le-granted :
      (start : ℕ) (user : String) (cs : List Input)
      → passed start user cs ≤ granted limit (window_of none) start user (calls_of cs)
  unfolding passed granted allows
  passed-le-granted start user [] = omega arith
  passed-le-granted start user (c ∷ cs) = elim (respond-Answers (served cs) c) [
    | refuses e same ↦ rw e (omega (arith, passed-le-granted start user cs))
    | calls call e h ↦
        let same =
          (check_rate_limit-Alike (served cs) (after limit (window_of none) (calls_of cs)) call.at
            call.member call.user limit (window_of none) (served-Alike cs)).0 in
        rw e (ground (arith, same, h.granted, passed-le-granted start user cs))
  ]

  -- Of one user's requests, or one address's without a user, at most the limit pass the gateway's
  -- limiter in any minute, whatever else is asked of the gateway, if the clock does not run
  -- backwards between the calls of the limiter.
  pub passed-le-limit :
      (start : ℕ) (user : String) (cs : List Input)
      → IsOrdered (calls_of cs)
      → passed start user cs ≤ limit
  passed-le-limit start user cs o =
      let bound = granted-le-limit limit (window_of none) start user (calls_of cs) o in
      let within = passed-le-granted start user cs in omega arith
