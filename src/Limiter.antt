-- ===== src/Limiter.antt =====
-- async_hardened_client/rate_limiter.py: the token bucket of one host, and the registry of buckets.
-- One round of the loop in `acquire` holds the lock from the refill to its return or to its sleep,
-- so a round is one step, and the clock is read once in it; rounds of several callers interleave.
mod Bucket
mod Registry
pub use Bucket.{TokenBucket, Round, granted, sleeps}
unfoldable pub use Bucket.{new_bucket, refill, round, tokens, acquire}
pub use Registry.{HostRateLimiter}
unfoldable pub use Registry.{new_limiter, set_override, bucket_of, host_of}
pub mod Bounds
pub mod Rate
pub mod Overrides
