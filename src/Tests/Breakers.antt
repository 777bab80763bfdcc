-- ===== src/Tests/Breakers.antt =====
-- The theorems on circuit breakers at concrete inputs.
use python_async_api_barebon.Base.{ℕ, ◌+◌, ◌≤◌, true, false, [], ◌∷◌, ◌≡◌, ◌≢◌, ◌↔◌, ◌⊎◌, arith}
use python_async_api_barebon.Base.Lists.{length, take}
use python_async_api_barebon.Breaker.{
  CircuitBreaker, closed, opened, half_open, new_breaker, on_failure, append_outcome, failure_rate,
  HostCircuitBreakers,
}
use python_async_api_barebon.Breaker.Rules.{
  calls, succeeds, fails, IsValid, run, run-IsValid, on_failure_opens_iff,
}
use python_async_api_barebon.Breaker.Probes.{call_all, call_all_admits_le, count_admitted}
use python_async_api_barebon.Breaker.Window.{report_all, report_all-history, streak, Triggers}
use python_async_api_barebon.Tests.Numbers.{nat_float}
use python_async_api_barebon.Tests.Worlds.{breaking}

-- A breaker that opened at time 5, and one whose only probe is in flight.
abbrev open_breaker : CircuitBreaker ℕ
open_breaker = record {
  host = "api";
  cfg = breaking;
  state = opened;
  consecutive_failures = 2;
  opened_at = 5;
  inflight_probes = 0;
  outcomes = false ∷ false ∷ [];
}

abbrev probing : CircuitBreaker ℕ
probing = record open_breaker { state = half_open; inflight_probes = 1 }

run-IsValid_example :
    IsValid
      (run (new_breaker "api" breaking) (calls 1 ∷ fails 2 ∷ fails 3 ∷ calls 20 ∷ succeeds ∷ []))
run-IsValid_example =
    run-IsValid "api" breaking (calls 1 ∷ fails 2 ∷ fails 3 ∷ calls 20 ∷ succeeds ∷ [])
      (ground arith)

on_failure_opens_iff_example : ((on_failure 6 probing).state ≡ opened) ↔ (
    (half_open ≢ closed)
    ⊎ (2 ≤ 2 + 1)
    ⊎ ((length (append_outcome false probing) ≡ 3)
        × (nat_float.le 1 (failure_rate (append_outcome false probing)) ≡ true)))
on_failure_opens_iff_example = on_failure_opens_iff 6 probing

call_all_admits_le_example : count_admitted (call_all open_breaker (6 ∷ 16 ∷ 17 ∷ [])).0 + 0 ≤ 1
call_all_admits_le_example = call_all_admits_le open_breaker (6 ∷ 16 ∷ 17 ∷ []) (ground arith)

report_all-history_example :
    let b =
      report_all
        ((4, false) ∷ (3, true) ∷ (2, false) ∷ (1, true) ∷ [])
        (new_breaker "api" breaking) in
    (b.outcomes ≡ take 3 (false ∷ true ∷ false ∷ true ∷ []))
    × (b.consecutive_failures ≡ streak (false ∷ true ∷ false ∷ true ∷ []))
    × ((b.state ≡ opened) ↔ Triggers breaking (false ∷ true ∷ false ∷ true ∷ []))
report_all-history_example =
    report_all-history "api" breaking ((4, false) ∷ (3, true) ∷ (2, false) ∷ (1, true) ∷ [])

abbrev no_breakers : HostCircuitBreakers ℕ
no_breakers = record { cfg = breaking; breakers = [] }
