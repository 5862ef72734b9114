-- ===== src/Gateway/RateLimit/Remote.antt =====
-- The limiter over a Redis that can fail: the client is a package, and what its pipeline gives for a
-- list of commands is an argument. A command that failed has an error and no value.
use aiself_healer.Common.{
  ℕ, ◌+◌, ◌*◌, ◌/◌, String, Bool, false, Option, none, some, List, ◌∷◌, ◌≡◌, arith, leb, map,
  if◌then◌else◌,
}
use aiself_healer.Gateway.MemoryRedis.{MemoryRedis, Op, run_op, exec}
use aiself_healer.Gateway.RateLimit.{
  rate_key, calls, check_rate_limit, identity, Verdict, next, rate_limit_exceeded,
  rate_limit_middleware,
}

-- What `await pipeline.exec()` comes to: an exception, or an error or a value for each command.
pub data Executed : Type 0 where
  rejects : Executed
  replies : List (Option String × Option ℕ) → Executed

-- `results[2][1]`; there are four commands, so there are four replies
abbrev pub count_of : List (Option String × Option ℕ) → Option ℕ
count_of (_ ∷ _ ∷ (_, n) ∷ _) = n
count_of _ = none

-- `undefined <= limit` is false
abbrev pub within : Option ℕ → ℕ → Bool
within none limit = false
within (some count) limit = leb count limit

-- What the middleware does: it passes the request on, answers 429, or throws.
pub data Limited : Type 0 where
  passes : Limited
  refuses : ℕ → Limited
  throws : Limited

abbrev pub settle : ℕ → ℕ → ℕ → Executed → Limited
settle now limit window rejects = throws
settle now limit window (replies results) =
    if within (count_of results) limit then passes else refuses ((now + window * 1000 + 999) / 1000)

unfoldable pub limit_remote :
    (List Op → Executed) → ℕ → String → Option String → Option String → ℕ → ℕ → Limited
limit_remote pipeline now member sub ip limit window =
    settle now limit window (pipeline (calls (rate_key (identity sub ip)) now member window))

-- the values of the in-memory client's replies
abbrev pub all_replied : List (Option String × ℕ) → Executed
all_replied results = replies (map (λ r. (r.0, some r.1)) results)

abbrev pub limited_as : Verdict → Limited
limited_as next = passes
limited_as (rate_limit_exceeded reset) = refuses reset

-- Over a client that answers as the in-memory one the limiter decides as the one over that does.
limit_remote-exec :
    (redis : MemoryRedis) (now : ℕ) (member : String) (sub ip : Option String) (limit window : ℕ)
    → limit_remote (λ ops. all_replied (exec redis ops).0) now member sub ip limit window
      ≡ limited_as (rate_limit_middleware redis now member sub ip limit window).2
unfolding limit_remote rate_limit_middleware check_rate_limit exec run_op
limit_remote-exec redis now member sub ip limit window = ground arith
