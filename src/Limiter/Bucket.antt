-- ===== src/Limiter/Bucket.antt =====
-- The class TokenBucket.
use python_async_api_barebon.Base.{ℕ, Option, none, some, List, [], ◌∷◌, ◌==◌, if◌then◌else◌}
use python_async_api_barebon.Base.Float.{Float, min}
use python_async_api_barebon.Errors.{value_error, overflow_error}
use python_async_api_barebon.Exec.{Result, ok, err, Exec}

pub record TokenBucket (F : Type 0) : Type 0 where
  pub rate : F
  pub capacity : F
  pub tokens : F
  pub last : F

-- How a round of `acquire` ends: with the total delay that is returned, or with a sleep of that
-- length, and the total so far.
pub data Round (F : Type 0) : Type 0 where
  granted : F → Round F
  sleeps : F → F → Round F

module _ {F : Type 0} ⦃o : Float F⦄ where
  abbrev full : F → F → Option F → Result F (TokenBucket F)
  full rate now none = err overflow_error
  full rate now (some c) = ok (record { rate = rate; capacity = c; tokens = c; last = now })

  -- `TokenBucket(rate_per_second, burst)`
  unfoldable pub new_bucket : F → ℕ → F → Result F (TokenBucket F)
  new_bucket rate_per_second burst now =
      if o.le rate_per_second o.zero
      then err (value_error "rate_per_second must be > 0")
      else if burst == 0
      then err (value_error "burst must be > 0")
      else full rate_per_second now (o.of_int burst)

  -- The property `tokens`: a snapshot, refilled to the time.
  unfoldable pub tokens : F → TokenBucket F → F
  tokens now b = min b.capacity (o.add b.tokens (o.mul (o.sub now b.last) b.rate))

  unfoldable pub refill : F → TokenBucket F → TokenBucket F
  refill now b =
      let elapsed = o.sub now b.last in
      if o.lt o.zero elapsed
      then record b { tokens = min b.capacity (o.add b.tokens (o.mul elapsed b.rate)); last = now }
      else b

  -- The part of a round behind the refill.
  abbrev consume : F → F → TokenBucket F → Round F × TokenBucket F
  consume count delay_total b =
      if o.le count b.tokens
      then (granted delay_total, record b { tokens = o.sub b.tokens count })
      else let wait = o.div (o.sub count b.tokens) b.rate in
        (sleeps wait (o.add delay_total wait), b)

  unfoldable pub round : F → F → F → TokenBucket F → Round F × TokenBucket F
  unfolding refill
  round now count delay_total b = consume count delay_total (refill now b)

  abbrev again :
      (F → Exec F (TokenBucket F) (Option F)) → Round F → Exec F (TokenBucket F) (Option F)
  again rest (granted delay) b = (ok (some delay), b)
  again rest (sleeps wait total) b = rest total b

  abbrev loop : F → List F → F → Exec F (TokenBucket F) (Option F)
  loop count [] total b = (ok none, b)
  loop count (now ∷ times) total b =
      let (r, b') = round now count total b in again (loop count times) r b'

  -- `acquire(count)` with no other caller: the clock's readings, one for each round. `none` means
  -- that the readings ran out while it still waits.
  unfoldable pub acquire : List F → F → Exec F (TokenBucket F) (Option F)
  unfolding round
  acquire times count b =
      if o.lt b.capacity count
      then (err (value_error "requested tokens > bucket capacity"), b)
      else loop count times o.zero b
