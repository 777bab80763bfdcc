-- ===== src/Client/Worker/Gate.antt =====
-- `_handle` up to its first write to the storage.
use python_async_api_barebon.Base.{
  ℕ, ◌+◌, ⊤, String, Option, none, some, List, [], ◌&&◌, ◌||◌, if◌then◌else◌,
}
use python_async_api_barebon.Base.Lists.{get_elem?, set}
use python_async_api_barebon.Base.Float.{Float}
use python_async_api_barebon.Errors.{
  PyError, circuit_open, retryable, dead_letter, overflow_error, value_error, is_retryable_error,
  is_non_retryable_error, is_circuit_open_error,
}
use python_async_api_barebon.Exec.{Result, ok, err}
use python_async_api_barebon.Models.{Response}
use python_async_api_barebon.Queue.{QueueItem, task_done}
use python_async_api_barebon.Retry.{should_retry, backoff_seconds}
use python_async_api_barebon.Breaker.{
  CircuitBreaker, for_host, store, before_call, on_success, on_failure,
}
use python_async_api_barebon.Breaker.Hosts.{host_of}
use python_async_api_barebon.Limiter.{
  TokenBucket, HostRateLimiter, Round, granted, sleeps, bucket_of, round,
}
use python_async_api_barebon.Metrics.{Metrics}
use python_async_api_barebon.Client.State.{
  Client, World, Worker, Timer, waits, executes, records_retry, pushes_letter, deletes_done, died,
}
use python_async_api_barebon.Client.Execute.{text_of, classified, is_throttle}

-- The client, the worker and the new reschedule tasks after a step.
abbrev pub Outcome : Type 0 → Type 0
Outcome F = Client F × Worker F × List (Timer F)

module _ {F : Type 0} where
  -- An exception that leaves `_handle`: `finally` reports the item as done, and the worker ends.
  abbrev pub dies : QueueItem F → PyError F → Client F → Outcome F
  dies item e c = (record c { queue = (task_done c.queue).1 }, died item e, [])

  -- `getattr(exc, "retry_after", None)`
  abbrev pub retry_after_of : PyError F → Option F
  retry_after_of (circuit_open host s) = some s
  retry_after_of (retryable message status s) = s
  retry_after_of _ = none

  abbrev first_some : Option F → Option F → Option F
  first_some (some s) other = some s
  first_some none other = other

  -- `exc if isinstance(exc, NonRetryableError) else DeadLetterError(str(exc))`
  unfoldable pub terminal_error : ⦃o : Float F⦄ → PyError F → PyError F
  terminal_error e = if is_non_retryable_error e then e else dead_letter (text_of e)

module _ {F : Type 0} ⦃o : Float F⦄ (w : World F) where
  abbrev pub schedule : QueueItem F → PyError F → Option F → Client F → Outcome F
  schedule item e none c = dies item overflow_error c
  schedule item e (some delay) c = (c, records_retry item e delay, [])

  -- `_handle_retry_or_dlq` up to its first write.
  unfoldable pub to_retry_or_dlq : QueueItem F → PyError F → Option F → Client F → Outcome F
  to_retry_or_dlq item e retry_after c =
      let m = c.metrics in
      if (is_retryable_error e || is_circuit_open_error e) && should_retry c.cfg.retry item.attempt
      then schedule item e
          (backoff_seconds c.cfg.retry item.attempt (first_some retry_after (retry_after_of e))
            w.uniform)
          (record c {
            metrics = record m {
              requests_failed_retryable = m.requests_failed_retryable + 1;
              retries_performed = m.retries_performed + 1;
            };
          })
      else (
        record c {
          metrics = record m {
            requests_failed_terminal = m.requests_failed_terminal + 1;
            dlq_pushes = m.dlq_pushes + 1;
          };
        },
        pushes_letter item e,
        [],
      )

  -- The metrics of an acquired token.
  abbrev count_wait : F → Metrics F → Metrics F
  count_wait wait m =
      if o.lt o.zero wait
      then record m {
        rate_limit_waits = m.rate_limit_waits + 1;
        rate_limit_wait_seconds_total = o.add m.rate_limit_wait_seconds_total wait;
      }
      else m

  abbrev pub after_round : QueueItem F → ℕ → Round F → Client F → Outcome F
  after_round item id (granted wait) c =
      (record c { metrics = count_wait wait c.metrics }, executes item, [])
  after_round item id (sleeps wait total) c = (c, waits item id total, [])

  abbrev pub round_at : F → QueueItem F → ℕ → F → Option (TokenBucket F) → Client F → Outcome F
  round_at now item id total none c = (c, waits item id total, [])
  round_at now item id total (some bucket) c =
      let (r, bucket') = round now o.one total bucket in
      let l = c.rate_limiter in
      after_round item id r (record c { rate_limiter = record l { heap = set l.heap id bucket' } })

  -- A round of `acquire()`, for one token of the bucket of a reference.
  unfoldable pub acquire_round : F → QueueItem F → ℕ → F → Client F → Outcome F
  acquire_round now item id total c =
      round_at now item id total (get_elem? c.rate_limiter.heap id) c

  -- `count > self._capacity`, before the first round.
  abbrev pub first_round : F → QueueItem F → ℕ → Option (TokenBucket F) → Client F → Outcome F
  first_round now item id none c = (c, waits item id o.zero, [])
  first_round now item id (some bucket) c =
      if o.lt bucket.capacity o.one
      then dies item (value_error "requested tokens > bucket capacity") c
      else round_at now item id o.zero (some bucket) c

  abbrev pub acquire_at : F → QueueItem F → Result F ℕ × HostRateLimiter F → Client F → Outcome F
  acquire_at now item (err e, l) c = dies item e (record c { rate_limiter = l })
  acquire_at now item (ok id, l) c =
      first_round now item id (get_elem? l.heap id) (record c { rate_limiter = l })

  abbrev pub admitted : F → QueueItem F → String → Result F ⊤ → Client F → Outcome F
  admitted now item host (ok x) c = acquire_at now item (bucket_of now host c.rate_limiter) c
  admitted now item host (err e) c =
      let m = c.metrics in
      to_retry_or_dlq item e (retry_after_of e)
        (record c { metrics = record m { breaker_short_circuits = m.breaker_short_circuits + 1 } })

  abbrev pub begin_at : F → QueueItem F → Result F String → Client F → Outcome F
  begin_at now item (err e) c = dies item e c
  begin_at now item (ok host) c =
      let (b, registry) = for_host host c.breakers in
      let (r, b') = before_call now b in
      admitted now item host r (record c { breakers = store host b' registry })

  -- `_handle` from its start: the breaker, and the first round of the rate limiter. A URL that
  -- cannot be parsed ends the worker.
  unfoldable pub begin : F → QueueItem F → Client F → Outcome F
  begin now item c = begin_at now item (host_of w.netloc item.request.url) c

  -- The host of an item that a worker has begun with, whose URL was parsed then.
  abbrev pub begun_host : QueueItem F → Result F String → String
  begun_host item (ok host) = host
  begun_host item (err e) = item.request.url

  -- The breaker of an item's host, changed by one of its methods.
  abbrev pub on_breaker : (CircuitBreaker F → CircuitBreaker F) → QueueItem F → Client F → Client F
  on_breaker f item c =
      let host = begun_host item (host_of w.netloc item.request.url) in
      let (b, registry) = for_host host c.breakers in
      record c { breakers = store host (f b) registry }

  -- `_handle` behind `_execute`, up to the next wait.
  unfoldable pub executed : F → QueueItem F → Result F (Response F) → Client F → Outcome F
  executed now item (ok response) c =
      let c' = on_breaker on_success item c in
      let m = c'.metrics in
      (
        record c' { metrics = record m { requests_succeeded = m.requests_succeeded + 1 } },
        deletes_done item response,
        [],
      )
  executed now item (err e) c =
      to_retry_or_dlq item (classified e) none
        (if is_throttle e then c else on_breaker (on_failure now) item c)
