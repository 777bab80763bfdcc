-- ===== src/Config.antt =====
-- async_hardened_client/config.py: the configuration dataclasses, over the type `F` of floats.
use python_async_api_barebon.Base.{ℕ, String, Bool}

pub record RateLimitConfig (F : Type 0) : Type 0 where
  pub rate_per_second : F
  pub burst : ℕ

pub record CircuitBreakerConfig (F : Type 0) : Type 0 where
  pub failure_threshold : ℕ
  pub failure_rate : F
  pub rolling_window : ℕ
  pub open_seconds : F
  pub half_open_max_probes : ℕ

pub record RetryPolicy (F : Type 0) : Type 0 where
  pub max_retries : ℕ
  pub base_delay : F
  pub max_delay : F
  pub jitter : Bool

pub record QueueConfig : Type 0 where
  pub max_size : ℕ
  pub workers : ℕ

pub record ClientConfig (F : Type 0) : Type 0 where
  pub db_path : String
  pub request_timeout : F
  pub rate_limit : RateLimitConfig F
  pub circuit_breaker : CircuitBreakerConfig F
  pub retry : RetryPolicy F
  pub queue : QueueConfig
  pub user_agent : String
