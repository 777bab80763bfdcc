-- ===== src/Tests/Retries.antt =====
-- The theorems on retries and statuses at concrete inputs.
use python_async_api_barebon.Base.{ℕ, String, true, Option, none, some, ◌≡◌, refl, arith}
use python_async_api_barebon.Base.Float.{min, max}
use python_async_api_barebon.Retry.{backoff_seconds}
use python_async_api_barebon.Retry.Bounds.{backoff_seconds_bounds}
use python_async_api_barebon.Tests.Numbers.{nat_float, nat_laws}
use python_async_api_barebon.Tests.Worlds.{policy}

abbrev unavailable : ℕ
unavailable = 503

-- The third attempt, with a draw at the top of its range.
backoff_seconds_bounds_example : (nat_float.le 0 9 ≡ true) × (nat_float.le 9 9 ≡ true)
unfolding backoff_seconds min max
backoff_seconds_bounds_example =
    backoff_seconds_bounds nat_laws policy 3 none (λ low high. high) 9 refl
      (λ t p. (p, ground arith)) (λ n p e. ground arith) refl

abbrev sent : Option String
sent = some "3"
