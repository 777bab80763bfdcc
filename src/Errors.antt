-- ===== src/Errors.antt =====
-- async_hardened_client/errors.py: the exceptions that the client raises or meets, and their
-- classification. A class is a constructor; the test `isinstance` is a function by clauses.
use python_async_api_barebon.Base.{
  ℕ, String, ◌≡◌, ◌↔◌, ◌⊎◌, Bool, true, false, ◌&&◌, Option, arith, ◌==◌, leb, ltb, ◌≤◌, ◌<◌,
  if◌then◌else◌,
}

-- An exception. The transport's classes carry their text; `other` is any further class, with its
-- name and text. DeadLetterError is a subclass of NonRetryableError. The body that a NonRetryableError
-- carries for the caller, which the client never reads, is left out.
pub data PyError (F : Type 0) : Type 0 where
  circuit_open : String → F → PyError F
  retryable : String → Option ℕ → Option F → PyError F
  non_retryable : String → Option ℕ → PyError F
  dead_letter : String → PyError F
  timeout : String → PyError F
  client_connection : String → PyError F
  server_disconnected : String → PyError F
  client_payload : String → PyError F
  value_error : String → PyError F
  overflow_error : PyError F
  type_error : PyError F
  runtime_error : String → PyError F
  other : String → String → PyError F

module _ {F : Type 0} where
  -- `isinstance(exc, RetryableError)`
  abbrev pub is_retryable_error : PyError F → Bool
  is_retryable_error (retryable message status retry_after) = true
  is_retryable_error _ = false

  -- `isinstance(exc, NonRetryableError)`, the subclass included
  abbrev pub is_non_retryable_error : PyError F → Bool
  is_non_retryable_error (non_retryable message status) = true
  is_non_retryable_error (dead_letter message) = true
  is_non_retryable_error _ = false

  -- `isinstance(exc, CircuitOpenError)`
  abbrev pub is_circuit_open_error : PyError F → Bool
  is_circuit_open_error (circuit_open host retry_after) = true
  is_circuit_open_error _ = false

  -- `isinstance(exc, AsyncHardenedError)`
  abbrev pub is_async_hardened_error : PyError F → Bool
  is_async_hardened_error (circuit_open host retry_after) = true
  is_async_hardened_error (retryable message status retry_after) = true
  is_async_hardened_error (non_retryable message status) = true
  is_async_hardened_error (dead_letter message) = true
  is_async_hardened_error _ = false

  unfoldable pub is_retryable_exception : PyError F → Bool
  is_retryable_exception (retryable message status retry_after) = true
  is_retryable_exception (non_retryable message status) = false
  is_retryable_exception (dead_letter message) = false
  is_retryable_exception (timeout text) = true
  is_retryable_exception (client_connection text) = true
  is_retryable_exception (server_disconnected text) = true
  is_retryable_exception (client_payload text) = true
  is_retryable_exception _ = false

unfoldable pub is_retryable_status : ℕ → Bool
is_retryable_status status_code =
    if status_code == 429 then true else leb 500 status_code && ltb status_code 600

-- The statuses that are tried again are 429 and those from 500 to 599, and no other.
pub is_retryable_status_iff :
    (status : ℕ)
    → (is_retryable_status status ≡ true) ↔ ((status ≡ 429) ⊎ ((500 ≤ status) × (status < 600)))
unfolding is_retryable_status
is_retryable_status_iff status = ground arith
