-- ===== src/Breaker/Rules.antt =====
-- circuit_breaker.py: when a breaker admits a call, when it opens, and its invariant.
use python_async_api_barebon.Base.{
  ◌+◌, ◌≤◌, ◌<◌, String, Bool, true, false, List, [], ◌∷◌, ◌≡◌, ◌≢◌, ◌↔◌, ◌⊎◌, arith,
}
use python_async_api_barebon.Base.Lists.{length, length-take}
use python_async_api_barebon.Base.Float.{Float}
use python_async_api_barebon.Config.{CircuitBreakerConfig}
use python_async_api_barebon.Exec.{ok}
use python_async_api_barebon.Breaker.Defs.{
  closed, opened, half_open, CircuitBreaker, new_breaker, before_call, on_success, on_failure,
  append_outcome, failure_rate,
}

-- What a client does to a breaker: a call at a time, or an outcome.
pub data Event (F : Type 0) : Type 0 where
  calls : F → Event F
  succeeds : Event F
  fails : F → Event F

module _ {F : Type 0} ⦃o : Float F⦄ where
  -- The slots in use fit the limit and only a half-open breaker uses any, the window is not
  -- exceeded, and a closed breaker is below its failure threshold.
  pub record IsValid (b : CircuitBreaker F) : Type 0 where
    pub slots : b.inflight_probes ≤ b.cfg.half_open_max_probes
    pub idle : b.state ≢ half_open → b.inflight_probes ≡ 0
    pub window : length b.outcomes ≤ b.cfg.rolling_window
    pub armed : b.state ≡ closed → b.consecutive_failures < b.cfg.failure_threshold
    pub threshold : 0 < b.cfg.failure_threshold

  unfoldable pub apply : CircuitBreaker F → Event F → CircuitBreaker F
  apply b (calls now) = (before_call now b).1
  apply b succeeds = on_success b
  apply b (fails now) = on_failure now b

  unfoldable pub run : CircuitBreaker F → List (Event F) → CircuitBreaker F
  run b [] = b
  run b (e ∷ es) = run (apply b e) es

  before_call-IsValid : (now : F) (b : CircuitBreaker F) → IsValid b → IsValid (before_call now b).1
  unfolding before_call
  before_call-IsValid now b v = ground arith

  append_outcome-length :
      (x : Bool) (b : CircuitBreaker F) → length (append_outcome x b) ≤ b.cfg.rolling_window
  unfolding append_outcome
  append_outcome-length x b = omega (arith, length-take b.cfg.rolling_window (x ∷ b.outcomes))

  on_success-IsValid : (b : CircuitBreaker F) → IsValid b → IsValid (on_success b)
  unfolding on_success append_outcome
  on_success-IsValid b v = ground (arith, append_outcome-length true b)

  on_failure-IsValid : (now : F) (b : CircuitBreaker F) → IsValid b → IsValid (on_failure now b)
  unfolding on_failure
  on_failure-IsValid now b v = ground (arith, append_outcome-length false b)

  apply-IsValid : (b : CircuitBreaker F) (e : Event F) → IsValid b → IsValid (apply b e)
  unfolding apply
  apply-IsValid b (calls now) v = before_call-IsValid now b v
  apply-IsValid b succeeds v = on_success-IsValid b v
  apply-IsValid b (fails now) v = on_failure-IsValid now b v

  run_keeps : (b : CircuitBreaker F) (es : List (Event F)) → IsValid b → IsValid (run b es)
  unfolding run
  run_keeps b [] v = v
  run_keeps b (e ∷ es) v = run_keeps (apply b e) es (apply-IsValid b e v)

  -- With a positive failure threshold, a new breaker keeps its invariant through every sequence of
  -- calls and outcomes at whatever times: the slots in use fit the limit and only a half-open
  -- breaker uses any, the window is not exceeded, and a closed breaker is below its failure
  -- threshold.
  pub run-IsValid :
      (host : String) (config : CircuitBreakerConfig F) (es : List (Event F))
      → 0 < config.failure_threshold
      → IsValid (run (new_breaker host config) es)
  unfolding new_breaker
  run-IsValid host config es h = run_keeps _ es (ground arith)

  -- A call is admitted exactly when the breaker is closed, or it is open, has cooled down and has a
  -- probe slot at all, or it is half-open with a slot free.
  pub before_call_admits_iff :
      (now : F) (b : CircuitBreaker F)
      → ((before_call now b).0 ≡ ok tt) ↔ (
          (b.state ≡ closed)
          ⊎ ((b.state ≡ opened)
              × (o.le b.cfg.open_seconds (o.sub now b.opened_at) ≡ true)
              × (0 < b.cfg.half_open_max_probes))
          ⊎ ((b.state ≡ half_open) × (b.inflight_probes < b.cfg.half_open_max_probes)))
  unfolding before_call
  before_call_admits_iff now b = ground arith

  -- A call never changes the counts of outcomes; a closed breaker admits and stays as it is; from
  -- another state an admitted call leaves the breaker half-open with a slot in use, and a rejected
  -- call leaves it as it was, or half-open with no slot in use where the limit of probes is 0.
  pub before_call_effect :
      (now : F) (b : CircuitBreaker F)
      → let (r, b') = before_call now b in
        (b'.consecutive_failures ≡ b.consecutive_failures)
        × (b'.outcomes ≡ b.outcomes)
        × (((b.state ≡ closed) × (r ≡ ok tt) × (b' ≡ b))
            ⊎ ((b.state ≢ closed) × (r ≡ ok tt) × (b'.state ≡ half_open) × (0 < b'.inflight_probes))
            ⊎ ((b.state ≢ closed) × (r ≢ ok tt) × (b' ≡ b))
            ⊎ ((b.state ≡ opened)
                × (r ≢ ok tt)
                × (b'.state ≡ half_open)
                × (b'.inflight_probes ≡ 0)
                × (b.cfg.half_open_max_probes ≡ 0)))
  unfolding before_call
  before_call_effect now b = ground arith

  -- A failure leaves a breaker open exactly when it was not closed, or the consecutive failures
  -- with this one reach the threshold, or the window with this one is full and its failure rate is
  -- reached.
  pub on_failure_opens_iff :
      (now : F) (b : CircuitBreaker F)
      → ((on_failure now b).state ≡ opened) ↔ (
          (b.state ≢ closed)
          ⊎ (b.cfg.failure_threshold ≤ b.consecutive_failures + 1)
          ⊎ ((length (append_outcome false b) ≡ b.cfg.rolling_window)
              × (o.le b.cfg.failure_rate (failure_rate (append_outcome false b)) ≡ true)))
  unfolding on_failure
  on_failure_opens_iff now b = ground arith
