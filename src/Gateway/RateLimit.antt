-- ===== src/Gateway/RateLimit.antt =====
-- services/api-gateway/src/rateLimit.js over the in-memory client. `now` is the reading of
-- `Date.now()` and `nonce` that of `Math.random()`, as they print.
pub mod Laws
pub mod Window
pub mod Remote
pub mod Spacing
use Prim.Native.String
use aiself_healer.Common.{
  ℕ, ◌+◌, ◌-◌, ◌*◌, ◌/◌, String, Bool, Option, none, some, List, [], ◌∷◌, if◌then◌else◌, leb,
  text_or, or_else,
}
use aiself_healer.Common.Int.{pos, sub_ℕ}
use aiself_healer.Gateway.MemoryRedis.{
  MemoryRedis, Op, zremrangebyscore_op, zadd_op, zcard_op, expire_op, exec,
}

pub record Decision : Type 0 where
  pub allowed : Bool
  pub remaining : ℕ
  pub reset : ℕ

-- the key `rate:${userId}`
unfoldable pub rate_key : String → String
rate_key user_id = String.◌++◌ "rate:" user_id

-- `${now}-${Math.random()}`; a number prints to a text by a function of the engine
abbrev pub member_of : String → String → String
member_of now_text nonce = String.◌++◌ now_text (String.◌++◌ "-" nonce)

-- `results[2][1]`; `exec` answers each of the four calls
abbrev pub third_reply : List (Option String × ℕ) → ℕ
third_reply (_ ∷ _ ∷ (_, n) ∷ _) = n
third_reply _ = 0

abbrev pub calls : String → ℕ → String → ℕ → List Op
calls key now member window =
    zremrangebyscore_op key (pos 0) (sub_ℕ now (window * 1000))
    ∷ zadd_op key now member
    ∷ zcard_op key
    ∷ expire_op key window
    ∷ []

-- `Math.max(0, limit - requestCount)` is subtraction on ℕ; `Math.ceil(t / 1000)` rounds up.
unfoldable pub check_rate_limit : MemoryRedis → ℕ → String → String → ℕ → ℕ → Decision × MemoryRedis
check_rate_limit redis now member user_id limit window =
    let (results, redis') = exec redis (calls (rate_key user_id) now member window) in
    let count = third_reply results in
    (
      record {
        allowed = leb count limit;
        remaining = limit - count;
        reset = (now + window * 1000 + 999) / 1000;
      },
      redis',
    )

-- `options.limit ?? process.env.RATE_LIMIT_PER_MINUTE ?? 120`, and `options.windowSeconds ?? 60`
abbrev pub limit_of : Option ℕ → Option ℕ → ℕ
limit_of (some n) env = n
limit_of none (some n) = n
limit_of none none = 120

abbrev pub window_of : Option ℕ → ℕ
window_of (some n) = n
window_of none = 60

-- `req.user?.sub || req.ip || "anonymous"`
abbrev pub identity : Option String → Option String → String
identity sub ip = text_or (or_else sub ip) "anonymous"

-- What the middleware does after it has set the two headers: `next()`, or the 429 reply.
pub data Verdict : Type 0 where
  next : Verdict
  rate_limit_exceeded : ℕ → Verdict

-- The middleware: the headers `X-RateLimit-Remaining` and `X-RateLimit-Reset`, the verdict, and
-- the client afterwards.
unfoldable pub rate_limit_middleware :
    MemoryRedis → ℕ → String → Option String → Option String → ℕ → ℕ → ℕ × ℕ × Verdict × MemoryRedis
unfolding check_rate_limit
rate_limit_middleware redis now member sub ip limit window =
    let (result, redis') = check_rate_limit redis now member (identity sub ip) limit window in
    (
      result.remaining,
      result.reset,
      if result.allowed then next else rate_limit_exceeded result.reset,
      redis',
    )
