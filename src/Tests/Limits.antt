-- ===== src/Tests/Limits.antt =====
-- The theorems on the rate limiter at concrete inputs.
use python_async_api_barebon.Base.{ℕ, true, [], ◌∷◌, ◌≡◌, refl, arith}
use python_async_api_barebon.Limiter.{TokenBucket, HostRateLimiter}
use python_async_api_barebon.Limiter.Bounds.{IsValid, rounds, rounds-IsValid}
use python_async_api_barebon.Limiter.Rate.{issued, issued-le}
use python_async_api_barebon.Tests.Numbers.{nat_float, nat_laws, exact_nat}
use python_async_api_barebon.Tests.Worlds.{rates}

-- Two tokens a second, at most four, one left at time 10.
abbrev bucket : TokenBucket ℕ
bucket = record { rate = 2; capacity = 4; tokens = 1; last = 10 }

bucket-IsValid : IsValid bucket
bucket-IsValid = ground arith

abbrev full_bucket : TokenBucket ℕ
full_bucket = record { rate = 2; capacity = 4; tokens = 4; last = 10 }

rounds-IsValid_example : IsValid (rounds ((10, 1) ∷ (11, 3) ∷ (12, 3) ∷ []) bucket)
rounds-IsValid_example =
    rounds-IsValid nat_laws ((10, 1) ∷ (11, 3) ∷ (12, 3) ∷ []) bucket (refl, (refl, (refl, tt)))
      bucket-IsValid

issued-le_example : nat_float.le (issued ((10, 1) ∷ (12, 3) ∷ (12, 3) ∷ []) bucket) 5 ≡ true
issued-le_example =
    issued-le nat_laws exact_nat 12 ((10, 1) ∷ (12, 3) ∷ (12, 3) ∷ []) bucket bucket-IsValid
      (refl, (refl, (refl, tt))) (refl, (refl, (refl, tt))) refl

abbrev limiter : HostRateLimiter ℕ
limiter = record { default = rates; overrides = []; buckets = ("api", 0) ∷ []; heap = bucket ∷ [] }
