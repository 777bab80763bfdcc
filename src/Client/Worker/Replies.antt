-- ===== src/Client/Worker/Replies.antt =====
-- What each status that upstream answers does to a worker's item and to the breaker of its host.
use python_async_api_barebon.Base.{ℕ, ◌≤◌, ◌<◌, ⊤, ◌≡◌, ◌≢◌, ◌⊎◌, ◌↔◌, arith}
use python_async_api_barebon.Base.Float.{Float}
use python_async_api_barebon.Errors.{overflow_error, is_retryable_status}
use python_async_api_barebon.Models.{Value, Fields}
use python_async_api_barebon.Retry.{should_retry}
use python_async_api_barebon.Queue.{QueueItem}
use python_async_api_barebon.Breaker.{on_success, on_failure}
use python_async_api_barebon.Client.State.{
  Client, World, Worker, records_retry, pushes_letter, deletes_done, died,
}
use python_async_api_barebon.Client.Execute.{execute, answers, classified, is_throttle}
use python_async_api_barebon.Client.Worker.Gate.{Outcome, executed, on_breaker, to_retry_or_dlq}

module _ {F : Type 0} ⦃o : Float F⦄ (w : World F) where
  -- A worker that will record a retry, or that an overflow of the backoff has ended.
  abbrev pub IsRetrying : Worker F → Type 0
  IsRetrying (records_retry item e delay) = ⊤
  IsRetrying (died item overflow_error) = ⊤
  IsRetrying _ = ⊥

  abbrev pub IsDeadLettering : Worker F → Type 0
  IsDeadLettering (pushes_letter item e) = ⊤
  IsDeadLettering _ = ⊥

  abbrev pub IsSucceeding : Worker F → Type 0
  IsSucceeding (deletes_done item response) = ⊤
  IsSucceeding _ = ⊥

  -- What `_handle` does with an answer of upstream, up to its next wait.
  abbrev pub after_reply : F → QueueItem F → ℕ → Value F → Fields F → Client F → Outcome F
  after_reply now item status body headers c =
      executed w now item (execute w item.request item.attempt (answers status body headers)) c

  -- When upstream answers, the worker goes on to the success path exactly for a status from 200 to
  -- 399; exactly for 429 and 500 to 599 with an attempt below `max_retries` it records a retry, or
  -- an overflow of the backoff ends it; and exactly for the rest, or with no attempt left, it
  -- writes a dead letter.
  pub status_decides_item :
      (now : F) (item : QueueItem F) (status : ℕ) (body : Value F) (headers : Fields F)
      (c : Client F)
      → let x = (after_reply now item status body headers c).1 in
        (IsSucceeding x ↔ ((200 ≤ status) × (status < 400)))
        × (IsRetrying x ↔ (
            ((status ≡ 429) ⊎ ((500 ≤ status) × (status < 600)))
            × (item.attempt < c.cfg.retry.max_retries)))
        × (IsDeadLettering x ↔ (
            (status < 200)
            ⊎ ((400 ≤ status) × (status < 500) × (status ≢ 429))
            ⊎ (600 ≤ status)
            ⊎ ((400 ≤ status) × (c.cfg.retry.max_retries ≤ item.attempt))))
  unfolding execute executed classified to_retry_or_dlq should_retry is_retryable_status
  status_decides_item now item status body headers c = (ground arith, ground arith, ground arith)

  -- When upstream answers, the breaker of the host is told of a success for a status from 200 to
  -- 399, of nothing for 429, and of a failure for any other status.
  pub status_decides_breaker :
      (now : F) (item : QueueItem F) (status : ℕ) (body : Value F) (headers : Fields F)
      (c : Client F)
      → let c' = (after_reply now item status body headers c).0 in
        ((200 ≤ status)
          × (status < 400)
          × (c'.breakers ≡ (on_breaker w on_success item c).breakers))
        ⊎ ((status ≡ 429) × (c'.breakers ≡ c.breakers))
        ⊎ (((status < 200) ⊎ (400 ≤ status))
            × (status ≢ 429)
            × (c'.breakers ≡ (on_breaker w (on_failure now) item c).breakers))
  unfolding execute executed classified to_retry_or_dlq is_throttle is_retryable_status
  status_decides_breaker now item status body headers c = ground arith
