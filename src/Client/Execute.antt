-- ===== src/Client/Execute.antt =====
-- `_execute` and the classification of what it raises.
use Prim.Native.String.{◌++◌}
use python_async_api_barebon.Base.{
  ℕ, String, Bool, false, Option, none, some, ◌&&◌, ◌||◌, leb, ltb, ◌==◌, if◌then◌else◌, str_eq,
}
use python_async_api_barebon.Base.Float.{Float}
use python_async_api_barebon.Errors.{
  PyError, circuit_open, retryable, non_retryable, dead_letter, timeout, client_connection,
  server_disconnected, client_payload, value_error, overflow_error, type_error, runtime_error,
  other, is_retryable_error, is_non_retryable_error, is_retryable_exception, is_retryable_status,
}
use python_async_api_barebon.Exec.{Result, ok, err}
use python_async_api_barebon.Models.{Value, str, Fields, Request, Response, field_of}
use python_async_api_barebon.Retry.{parse_retry_after}
use python_async_api_barebon.Client.State.{World}

-- What the session's request comes to: a status with the body as it was read and the headers, or an
-- exception of the transport.
pub data Reply (F : Type 0) : Type 0 where
  answers : ℕ → Value F → Fields F → Reply F
  raises : PyError F → Reply F

module _ {F : Type 0} where
  -- `str(exc)`
  unfoldable pub text_of : ⦃o : Float F⦄ → PyError F → String
  text_of ⦃o⦄ (circuit_open host retry_after) =
      "circuit open for " ++ host ++ ", retry after " ++ o.format1 retry_after ++ "s"
  text_of (retryable message status retry_after) = message
  text_of (non_retryable message status) = message
  text_of (dead_letter message) = message
  text_of (timeout text) = text
  text_of (client_connection text) = text
  text_of (server_disconnected text) = text
  text_of (client_payload text) = text
  text_of (value_error text) = text
  text_of overflow_error = "int too large to convert to float"
  text_of type_error = "Object is not JSON serializable"
  text_of (runtime_error text) = text
  text_of (other name text) = text

  -- `exc.__class__.__name__`
  unfoldable pub class_name : PyError F → String
  class_name (circuit_open host retry_after) = "CircuitOpenError"
  class_name (retryable message status retry_after) = "RetryableError"
  class_name (non_retryable message status) = "NonRetryableError"
  class_name (dead_letter message) = "DeadLetterError"
  class_name (timeout text) = "TimeoutError"
  class_name (client_connection text) = "ClientConnectionError"
  class_name (server_disconnected text) = "ServerDisconnectedError"
  class_name (client_payload text) = "ClientPayloadError"
  class_name (value_error text) = "ValueError"
  class_name overflow_error = "OverflowError"
  class_name type_error = "TypeError"
  class_name (runtime_error text) = "RuntimeError"
  class_name (other name text) = name

  -- `_is_throttle`
  unfoldable pub is_throttle : PyError F → Bool
  is_throttle (retryable message (some status) retry_after) = status == 429
  is_throttle _ = false

  abbrev header_text : Option (Value F) → Option String
  header_text (some (str s)) = some s
  header_text _ = none

  module _ ⦃o : Float F⦄ (w : World F) where
    abbrev status_error : ℕ → Fields F → PyError F
    status_error status headers =
        let retry_after =
          parse_retry_after w.read_float (header_text (field_of "Retry-After" headers)) in
        let message = "HTTP " ++ w.platform.int_text status in
        if is_retryable_status status
        then retryable message (some status) retry_after
        else non_retryable message (some status)

    unfoldable pub execute : Request F → ℕ → Reply F → Result F (Response F)
    execute req attempt (raises e) = err e
    execute req attempt (answers status body headers) =
        if leb 200 status && ltb status 400
        then ok (record {
          status_code = status;
          data_read = body;
          headers = headers;
          error = none;
          retries = attempt;
          request_id = req.request_id;
        })
        else err (status_error status headers)

  -- The handlers of `_handle` around `_execute`: the error that goes to the retry path. One of the
  -- client's own goes as it is, and any other is wrapped.
  unfoldable pub classified : ⦃o : Float F⦄ → PyError F → PyError F
  unfolding text_of class_name
  classified e =
      if is_retryable_error e || is_non_retryable_error e
      then e
      else let text = if str_eq (text_of e) "" then class_name e else text_of e in
        if is_retryable_exception e then retryable text none none else non_retryable text none
