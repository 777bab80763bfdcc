-- ===== src/Breaker.antt =====
-- async_hardened_client/circuit_breaker.py: the breaker of one host, and the registry of breakers.
-- The time that a method reads from the clock is its argument `now`. The lock is held from the first
-- to the last line of a method, and no method waits inside it, so each method is one step.
mod Defs
pub use Defs.{CircuitState, closed, opened, half_open, CircuitBreaker}
unfoldable pub use Defs.{
  new_breaker, before_call, on_success, on_failure, open_now, failure_rate, failures,
  append_outcome,
}
pub mod Rules
pub mod Probes
pub mod Window
pub mod Hosts
pub use Hosts.{HostCircuitBreakers}
unfoldable pub use Hosts.{for_host, store, snapshot}
