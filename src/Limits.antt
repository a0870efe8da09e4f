-- ===== src/Limits.antt =====
-- internal/infrastructure/http/middleware/ratelimit.go. Redis is the record `Redis`; the keys, which
-- name the token with the minute and with the day, are arguments.
use go_agent_api.Base.{
  ℕ, ◌-◌, ◌*◌, String, Bool, true, false, ◌==◌, ltb, Option, none, some, if◌then◌else◌,
}
use go_agent_api.Base.Exec.{Result, ok, err}
use go_agent_api.Entity.Token.{Token}
pub mod Counting

pub record Redis (S : Type 0) : Type 0 where
  -- INCR; the value is 0 beside an error
  pub incr : String → S → Result ℕ × S
  -- EXPIRE, whose result is dropped
  pub expire : String → ℕ → S → S

-- What becomes of a request: handed on, with the requests that remain where a token was found, or
-- refused with status 429.
pub data Verdict : Type 0 where
  passed : Verdict
  counted : ℕ → Verdict
  over_minute : Verdict
  over_day : Verdict

abbrev pub minute : ℕ
minute = 60 * 1000000000

abbrev pub day : ℕ
day = 24 * 3600 * 1000000000

module _ {S : Type 0} (redis : Redis S) where
  -- the count after the first error test
  abbrev pub value_of : Result ℕ → ℕ
  value_of (ok n) = n
  value_of (err x) = 0

  abbrev pub is_first : Result ℕ → Bool
  is_first (ok n) = n == 1
  is_first (err x) = false

  -- Incr, and Expire at the first count
  unfoldable pub count : String → ℕ → S → ℕ × S
  count key ttl s =
      let (r, s') = redis.incr key s in
      (value_of r, if is_first r then redis.expire key ttl s' else s')

  unfoldable pub limit_day : String → ℕ → Token → S → Verdict × S
  unfolding count
  limit_day day_key in_minute token s =
      let (n, s') = count day_key day s in
      (
        if ltb token.rate_limit_per_day n
            then over_day
            else counted (token.rate_limit_per_minute - in_minute),
        s',
      )

  unfoldable pub limit_minute : String → String → Token → S → Verdict × S
  unfolding limit_day count
  limit_minute minute_key day_key token s =
      let (n, s') = count minute_key minute s in
      if ltb token.rate_limit_per_minute n then (over_minute, s') else limit_day day_key n token s'

  -- Limit
  unfoldable pub limit : String → String → Option Token → S → Verdict × S
  unfolding limit_minute
  limit minute_key day_key none s = (passed, s)
  limit minute_key day_key (some token) s = limit_minute minute_key day_key token s
