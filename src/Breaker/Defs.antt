-- ===== src/Breaker/Defs.antt =====
-- The class CircuitBreaker.
use python_async_api_barebon.Base.{
  ℕ, ◌+◌, ⊤, String, Bool, true, false, List, [], ◌∷◌, ◌&&◌, ◌==◌, leb, if◌then◌else◌,
}
use python_async_api_barebon.Base.Lists.{length, take}
use python_async_api_barebon.Base.Float.{Float}
use python_async_api_barebon.Config.{CircuitBreakerConfig}
use python_async_api_barebon.Errors.{circuit_open}
use python_async_api_barebon.Exec.{ok, err, Exec}

pub data CircuitState : Type 0 where
  closed : CircuitState
  opened : CircuitState
  half_open : CircuitState

-- `outcomes` is the deque, newest first.
pub record CircuitBreaker (F : Type 0) : Type 0 where
  pub host : String
  pub cfg : CircuitBreakerConfig F
  pub state : CircuitState
  pub consecutive_failures : ℕ
  pub opened_at : F
  pub inflight_probes : ℕ
  pub outcomes : List Bool

-- `sum(1 for ok in self._outcomes if not ok)`
unfoldable pub failures : List Bool → ℕ
failures [] = 0
failures (true ∷ outcomes) = failures outcomes
failures (false ∷ outcomes) = failures outcomes + 1

module _ {F : Type 0} ⦃o : Float F⦄ where
  -- `CircuitBreaker(host, config)`
  unfoldable pub new_breaker : String → CircuitBreakerConfig F → CircuitBreaker F
  new_breaker host config = record {
    host = host;
    cfg = config;
    state = closed;
    consecutive_failures = 0;
    opened_at = o.zero;
    inflight_probes = 0;
    outcomes = [];
  }

  -- The second `if` of `before_call`, in the state HALF_OPEN: a full slot rejects.
  abbrev take_probe : Exec F (CircuitBreaker F) ⊤
  take_probe b =
      if leb b.cfg.half_open_max_probes b.inflight_probes
      then (err (circuit_open b.host o.zero), b)
      else (ok tt, record b { inflight_probes = b.inflight_probes + 1 })

  -- The first `if`, in the state OPEN.
  abbrev cool_down : F → Exec F (CircuitBreaker F) ⊤
  cool_down now b =
      if o.le b.cfg.open_seconds (o.sub now b.opened_at)
      then take_probe (record b { state = half_open; inflight_probes = 0 })
      else (err (circuit_open b.host (o.sub b.cfg.open_seconds (o.sub now b.opened_at))), b)

  abbrev gate : CircuitState → F → Exec F (CircuitBreaker F) ⊤
  gate closed now b = (ok tt, b)
  gate opened now b = cool_down now b
  gate half_open now b = take_probe b

  unfoldable pub before_call : F → Exec F (CircuitBreaker F) ⊤
  before_call now b = gate b.state now b

  -- `self._outcomes.append(ok)`: a full deque drops its oldest entry.
  unfoldable pub append_outcome : Bool → CircuitBreaker F → List Bool
  append_outcome outcome b = take b.cfg.rolling_window (outcome ∷ b.outcomes)

  abbrev settle : CircuitState → CircuitBreaker F → CircuitBreaker F
  settle half_open b = record b { state = closed; inflight_probes = 0; outcomes = [] }
  settle _ b = b

  unfoldable pub on_success : CircuitBreaker F → CircuitBreaker F
  unfolding append_outcome
  on_success b =
      settle b.state (record b { consecutive_failures = 0; outcomes = append_outcome true b })

  unfoldable pub failure_rate : List Bool → F
  failure_rate [] = o.zero
  failure_rate (outcome ∷ outcomes) =
      o.int_div (failures (outcome ∷ outcomes)) (length (outcome ∷ outcomes))

  unfoldable pub open_now : F → CircuitBreaker F → CircuitBreaker F
  open_now now b = record b { state = opened; opened_at = now; inflight_probes = 0 }

  -- The window is full, and its failure rate has reached the threshold.
  abbrev pub is_rate_reached : CircuitBreaker F → Bool
  is_rate_reached b =
      length b.outcomes == b.cfg.rolling_window && o.le b.cfg.failure_rate (failure_rate b.outcomes)

  abbrev trip : CircuitState → F → CircuitBreaker F → CircuitBreaker F
  trip half_open now b = open_now now b
  trip opened now b = b
  trip closed now b =
      if leb b.cfg.failure_threshold b.consecutive_failures
      then open_now now b
      else if is_rate_reached b
      then open_now now b
      else b

  unfoldable pub on_failure : F → CircuitBreaker F → CircuitBreaker F
  unfolding append_outcome open_now
  on_failure now b = trip b.state now (record b {
    consecutive_failures = b.consecutive_failures + 1;
    outcomes = append_outcome false b;
  })
