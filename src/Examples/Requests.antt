-- ===== src/Examples/Requests.antt =====
-- The theorems of the rate limiter at a Redis whose state is the two counters.
use go_agent_api.Base.{ℕ, suc, ◌<◌, String, some, ◌≡◌, refl, ◌↔◌, str_eq, if◌then◌else◌}
use go_agent_api.Base.Exec.{ok, err, message}
use go_agent_api.Limits.{Redis, counted, limit}
use go_agent_api.Limits.Counting.{Counts, lets, limit_iff, limit_fails_open}
use go_agent_api.Examples.Fixtures.{session}

-- A counter for each key.
abbrev pub counters : Redis (String → ℕ)
counters = record {
  incr = λ key s. (ok (suc (s key)), λ other. if str_eq key other then suc (s other) else s other);
  expire = λ key ttl s. s;
}

unfoldable pub counters-Counts : Counts counters
counters-Counts = record {
  value = λ key s. s key;
  returns = λ key s. refl;
  adds = λ key other s. refl;
  keeps = λ key other ttl s. refl;
}

abbrev pub unused : String → ℕ
unused key = 0

limit_iff_example :
    (lets (limit counters "minute" "day" (some session) unused).0 ≡ 1) ↔ ((0 < 2) × (0 < 10))
unfolding counters-Counts
limit_iff_example = limit_iff counters counters-Counts "minute" "day" session unused refl refl

abbrev down : Redis ℕ
down = record { incr = λ key s. (err (message "refused"), suc s); expire = λ key ttl s. s }

limit_fails_open_example : limit down "minute" "day" (some session) 0 ≡ (counted 2, 2)
limit_fails_open_example =
    limit_fails_open down "minute" "day" session 0 (λ key t. (message "refused", refl))
