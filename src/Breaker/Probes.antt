-- ===== src/Breaker/Probes.antt =====
-- circuit_breaker.py: the life of an open breaker, and the probe slots of a half-open one.
use python_async_api_barebon.Base.{ℕ, ◌+◌, ◌≤◌, ⊤, false, List, [], ◌∷◌, ◌≡◌, ◌≢◌, arith, refl}
use python_async_api_barebon.Base.Lists.{All}
use python_async_api_barebon.Base.Float.{Float}
use python_async_api_barebon.Exec.{Result, ok, err}
use python_async_api_barebon.Breaker.Defs.{
  closed, opened, half_open, CircuitBreaker, before_call, on_success, on_failure,
}

module _ {F : Type 0} ⦃o : Float F⦄ where
  -- The answers to calls at a sequence of times, with no outcome reported in between.
  unfoldable pub call_all : CircuitBreaker F → List F → List (Result F ⊤) × CircuitBreaker F
  call_all b [] = ([], b)
  call_all b (now ∷ times) =
      let (r, b') = before_call now b in let (rs, last) = call_all b' times in (r ∷ rs, last)

  -- At times before the cool-down is over an open breaker rejects every call and stays as it is.
  pub open_rejects :
      (b : CircuitBreaker F) (times : List F)
      → b.state ≡ opened
      → All (λ now. o.le b.cfg.open_seconds (o.sub now b.opened_at) ≡ false) times
      → ((call_all b times).1 ≡ b) × All (λ r. (r ≢ ok tt)) (call_all b times).0
  unfolding call_all before_call
  open_rejects b [] h early = (refl, tt)
  open_rejects b (now ∷ times) h early = ground (arith, open_rejects b times h early.1)

  abbrev admitted : Result F ⊤ → ℕ
  admitted (ok x) = 1
  admitted (err e) = 0

  abbrev pub count_admitted : List (Result F ⊤) → ℕ
  count_admitted [] = 0
  count_admitted (r ∷ rs) = admitted r + count_admitted rs

  -- Not closed, with its slots within the limit, and none in use while open.
  abbrev pub IsGuarded : CircuitBreaker F → Type 0
  IsGuarded b =
      (b.state ≢ closed)
      × (b.inflight_probes ≤ b.cfg.half_open_max_probes)
      × (b.state ≡ opened → b.inflight_probes ≡ 0)

  before_call-IsGuarded :
      (now : F) (b : CircuitBreaker F)
      → IsGuarded b
      → let (r, b') = before_call now b in
        IsGuarded b' × (admitted r + b.inflight_probes ≤ b'.inflight_probes) × (b'.cfg ≡ b.cfg)
  unfolding before_call
  before_call-IsGuarded now b g = ground arith

  -- However many calls arrive, and whenever, a breaker that is not closed, whose slots in use fit
  -- the limit and are none while it is open, admits no more of them than its free probe slots until
  -- an outcome is reported.
  pub call_all_admits_le :
      (b : CircuitBreaker F) (times : List F)
      → IsGuarded b
      → count_admitted (call_all b times).0 + b.inflight_probes ≤ b.cfg.half_open_max_probes
  unfolding call_all
  call_all_admits_le b [] g = omega arith
  call_all_admits_le b (now ∷ times) g =
      let (g', taken, same) = before_call-IsGuarded now b g in
      let rest = call_all_admits_le (before_call now b).1 times g' in
      ground (arith, rest, taken, same)

  -- A probe's success closes the breaker with a fresh history, and its failure opens it again from
  -- its own time, in both cases with no slot in use.
  pub probe_outcome :
      (now : F) (b : CircuitBreaker F)
      → b.state ≡ half_open
      → ((on_success b).state ≡ closed)
        × ((on_success b).outcomes ≡ [])
        × ((on_success b).consecutive_failures ≡ 0)
        × ((on_success b).inflight_probes ≡ 0)
        × ((on_failure now b).state ≡ opened)
        × ((on_failure now b).opened_at ≡ now)
        × ((on_failure now b).inflight_probes ≡ 0)
  unfolding on_success on_failure
  probe_outcome now b h = ground arith
