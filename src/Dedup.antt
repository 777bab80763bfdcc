-- ===== src/Dedup.antt =====
-- async_hardened_client/dedup.py: the registry of requests in flight.
pub mod Defs
pub use Defs.{Future, pending, resolved, failed, cancelled, InFlightRegistry}
unfoldable pub use Defs.{new_registry, future_at, get_or_create, resolve, fail, discard, cancel}
pub mod Invariant
pub mod Sharing
