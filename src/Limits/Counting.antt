-- ===== src/Limits/Counting.antt =====
-- Which requests the limiter lets through.
use go_agent_api.Base.{
  eq_refl, ℕ, zero, suc, ◌+◌, ◌-◌, ◌<◌, ◌≤◌, String, true, false, ◌==◌, ltb, str_eq, some, ◌≡◌, ◌≢◌,
  refl, ap, ◌∙◌, arith, ◌↔◌, if◌then◌else◌, Bool-cases, inl, inr,
}
use go_agent_api.Base.Exec.{Error, ok, err}
use go_agent_api.Entity.Token.{Token}
use go_agent_api.Limits.{
  minute, Redis, Verdict, passed, counted, over_minute, over_day, count, limit, limit_minute,
  limit_day,
}

-- Redis as its documentation has it: INCR adds one to the value of its key and returns it, EXPIRE
-- keeps the values, and neither touches other keys.
pub record Counts {S : Type 0} (redis : Redis S) : Type 0 where
  pub value : String → S → ℕ
  pub returns : (key : String) (s : S) → (redis.incr key s).0 ≡ ok (suc (value key s))
  pub adds :
      (key other : String) (s : S)
      → value other (redis.incr key s).1
        ≡ (if str_eq key other then suc (value other s) else value other s)
  pub keeps :
      (key other : String) (ttl : ℕ) (s : S) → value other (redis.expire key ttl s) ≡ value other s

-- The requests that a verdict lets through: one or none.
abbrev pub lets : Verdict → ℕ
lets (counted n) = 1
lets _ = 0

module _ {S : Type 0} (redis : Redis S) (counts : Counts redis) where
  counted_value :
      (key : String) (ttl : ℕ) (s : S) → (count redis key ttl s).0 ≡ suc (counts.value key s)
  unfolding count
  counted_value key ttl s = rw (counts.returns key s) refl

  counted_state :
      (key other : String) (ttl : ℕ) (s : S)
      → counts.value other (count redis key ttl s).1
        ≡ (if str_eq key other then suc (counts.value other s) else counts.value other s)
  unfolding count
  counted_state key other ttl s =
      rw (counts.returns key s) (elim (Bool-cases (suc (counts.value key s) == 1)) [
        | inl p ↦ rw p (counts.keeps key other ttl _ ∙ counts.adds key other s)
        | inr p ↦ rw p (counts.adds key other s)
      ])

  module _ (minute_key day_key : String) (token : Token) where
    -- The verdict of the day's test, and what it leaves of the minute's count.
    limit_day_step :
        (n : ℕ) (s : S)
        → str_eq day_key minute_key ≡ false
        → ((limit_day redis day_key n token s).0 ≡ (
            if ltb token.rate_limit_per_day (suc (counts.value day_key s))
            then over_day
            else counted (token.rate_limit_per_minute - n)))
          × (counts.value minute_key (limit_day redis day_key n token s).1
              ≡ counts.value minute_key s)
          × (counts.value day_key (limit_day redis day_key n token s).1
              ≡ suc (counts.value day_key s))
    unfolding limit_day
    limit_day_step n s other = (
      rw (counted_value day_key _ s) refl,
      counted_state day_key minute_key _ s ∙ rw other refl,
      counted_state day_key day_key _ s ∙ rw (eq_refl day_key) refl,
    )

    limit_minute_over :
        (s : S)
        → ltb token.rate_limit_per_minute (suc (counts.value minute_key s)) ≡ true
        → limit_minute redis minute_key day_key token s
          ≡ (over_minute, (count redis minute_key minute s).1)
    unfolding limit_minute
    limit_minute_over s p = rw (counted_value minute_key minute s, p) refl

    limit_minute_within :
        (s : S)
        → ltb token.rate_limit_per_minute (suc (counts.value minute_key s)) ≡ false
        → limit_minute redis minute_key day_key token s
          ≡ limit_day redis day_key
              (suc (counts.value minute_key s))
              token
              (count redis minute_key minute s).1
    unfolding limit_minute
    limit_minute_within s p = rw (counted_value minute_key minute s, p) refl

    abbrev pub Stepped : S → Verdict × S → Type 0
    Stepped s r =
        (counts.value minute_key r.1 ≡ suc (counts.value minute_key s))
        × (lets r.0 + (token.rate_limit_per_minute - suc (counts.value minute_key s))
            ≤ token.rate_limit_per_minute - counts.value minute_key s)
        × (lets r.0 ≡ 1
            → (counts.value minute_key s < token.rate_limit_per_minute)
              × (counts.value day_key s < token.rate_limit_per_day))
        × ((counts.value minute_key s < token.rate_limit_per_minute)
            → (counts.value day_key s < token.rate_limit_per_day)
            → r.0 ≡ counted (token.rate_limit_per_minute - suc (counts.value minute_key s)))

    within_day :
        (n a vm vd : ℕ)
        → ltb token.rate_limit_per_minute (suc vm) ≡ false
        → (lets (if ltb token.rate_limit_per_day (suc vd) then over_day else counted a)
              + (token.rate_limit_per_minute - suc vm)
            ≤ token.rate_limit_per_minute - vm)
          × (lets (if ltb token.rate_limit_per_day (suc vd) then over_day else counted a) ≡ 1
              → (vm < token.rate_limit_per_minute) × (vd < token.rate_limit_per_day))
          × (vm < token.rate_limit_per_minute
              → vd < token.rate_limit_per_day
              → (if ltb token.rate_limit_per_day (suc vd) then over_day else counted a) ≡ counted a)
    within_day n a vm vd p = ground (arith, p)

    Stepped-within :
        (s : S)
        → str_eq day_key minute_key ≡ false
        → str_eq minute_key day_key ≡ false
        → ltb token.rate_limit_per_minute (suc (counts.value minute_key s)) ≡ false
        → Stepped s (limit_minute redis minute_key day_key token s)
    Stepped-within s other other' p =
        let n = suc (counts.value minute_key s) in
        let s' = (count redis minute_key minute s).1 in
        let (verdict, value, _) = limit_day_step n s' other in
        let counted_minute : counts.value minute_key s' ≡ n =
          counted_state minute_key minute_key minute s ∙ rw (eq_refl minute_key) refl in
        let same_day : counts.value day_key s' ≡ counts.value day_key s =
          counted_state minute_key day_key minute s ∙ rw other' refl in
        let (a, b, c) =
          within_day n (token.rate_limit_per_minute - n) (counts.value minute_key s)
            (counts.value day_key s) p in
        rw (limit_minute_within s p, verdict, same_day) (value ∙ counted_minute, a, b, c)

    pub limit-Stepped :
        (s : S)
        → str_eq day_key minute_key ≡ false
        → str_eq minute_key day_key ≡ false
        → Stepped s (limit redis minute_key day_key (some token) s)
    unfolding limit
    limit-Stepped s other other' =
        elim (Bool-cases (ltb token.rate_limit_per_minute (suc (counts.value minute_key s)))) [
          | inl p ↦ rw (limit_minute_over s p) (
            counted_state minute_key minute_key minute s ∙ rw (eq_refl minute_key) refl,
            omega arith,
            λ q. absurd (omega (arith, q)),
            λ q r. absurd (ground (arith, p, q)),
          )
          | inr p ↦ Stepped-within s other other' p
        ]

    -- A request with a token leaves the counts of other keys.
    pub limit-keeps :
        (other : String) (s : S)
        → str_eq minute_key other ≡ false
        → str_eq day_key other ≡ false
        → counts.value other (limit redis minute_key day_key (some token) s).1
          ≡ counts.value other s
    unfolding limit limit_minute limit_day
    limit-keeps other s p q =
        let first = counted_state minute_key other minute s ∙ rw p refl in
        elim (Bool-cases (ltb token.rate_limit_per_minute (count redis minute_key minute s).0)) [
          | inl over ↦ rw over first
          | inr within ↦ rw within (counted_state day_key other _ _ ∙ rw q first)
        ]

    -- A request with a token gets one of the three other verdicts.
    pub limit-passed : (s : S) → (limit redis minute_key day_key (some token) s).0 ≢ passed
    unfolding limit limit_minute limit_day
    limit-passed s p = ground (arith, p)

    -- A request with a token, where Redis does what its documentation says and the keys of the
    -- minute and of the day differ, is handed on exactly when fewer requests than the token's two
    -- limits have been counted in the minute and in the day before it.
    pub limit_iff :
        (s : S)
        → str_eq day_key minute_key ≡ false
        → str_eq minute_key day_key ≡ false
        → (lets (limit redis minute_key day_key (some token) s).0 ≡ 1) ↔ (
            (counts.value minute_key s < token.rate_limit_per_minute)
            × (counts.value day_key s < token.rate_limit_per_day))
    limit_iff s other other' =
        let (_, _, only, handed) = limit-Stepped s other other' in
        (only, λ p. ap lets (handed p.0 p.1))

    -- How many of so many requests, one after another in one minute, are handed on.
    handed_on : ℕ → S → ℕ
    handed_on zero s = 0
    handed_on (suc n) s =
        let r = limit redis minute_key day_key (some token) s in lets r.0 + handed_on n r.1

    -- Of any number of requests in one minute, where Redis does what its documentation says and the
    -- two keys differ, no more are handed on than the token's limit leaves after those counted
    -- before.
    handed_on-bound :
        (n : ℕ) (s : S)
        → str_eq day_key minute_key ≡ false
        → str_eq minute_key day_key ≡ false
        → handed_on n s ≤ token.rate_limit_per_minute - counts.value minute_key s
    unfolding handed_on
    handed_on-bound zero s other other' = omega arith
    handed_on-bound (suc n) s other other' =
        let (value, room, _, _) = limit-Stepped s other other' in
        let rest =
          handed_on-bound n (limit redis minute_key day_key (some token) s).1 other other' in
        omega (arith, value, room, rest)

-- A request with a token is handed on, as if it were the first, when neither counter can be read.
pub limit_fails_open :
    {S : Type 0} (redis : Redis S) (minute_key day_key : String) (token : Token) (s : S)
    → ((key : String) (t : S) → (x : Error) × ((redis.incr key t).0 ≡ err x))
    → limit redis minute_key day_key (some token) s
      ≡ (counted token.rate_limit_per_minute, (redis.incr day_key (redis.incr minute_key s).1).1)
unfolding limit limit_minute limit_day count
limit_fails_open redis minute_key day_key token s down =
    let (x, p) = down minute_key s in
    let (y, q) = down day_key (redis.incr minute_key s).1 in rw (p, q) (ground arith)
