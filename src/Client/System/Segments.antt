-- ===== src/Client/System/Segments.antt =====
-- A worker's segments keep the item that they have in hand.
use python_async_api_barebon.Base.{
  ⊤, ℕ, ◌<◌, ◌≡◌, [], Option, none, Bool-cases, inl, inr, ◌+◌, String, arith,
}
use python_async_api_barebon.Base.Float.{Float}
use python_async_api_barebon.Breaker.{for_host, store, before_call, on_failure}
use python_async_api_barebon.Breaker.Hosts.{host_of}
use python_async_api_barebon.Client.Execute.{classified, is_throttle}
use python_async_api_barebon.Client.State.{
  Worker, waits, executes, records_retry, pushes_letter, deletes_done, died, Client, World,
}
use python_async_api_barebon.Client.System.Carriers.{busy}
use python_async_api_barebon.Client.Worker.Gate.{
  begin_at, retry_after_of, Outcome, to_retry_or_dlq, begin, acquire_round, executed, dies,
  acquire_at, admitted, on_breaker,
}
use python_async_api_barebon.Errors.{PyError}
use python_async_api_barebon.Exec.{Result, ok, err}
use python_async_api_barebon.Limiter.{bucket_of, HostRateLimiter}
use python_async_api_barebon.Metrics.{Metrics}
use python_async_api_barebon.Models.{Response}
use python_async_api_barebon.Queue.{QueueItem, task_done}
use python_async_api_barebon.Retry.{should_retry}

-- 1 for a worker with an item that no count of outcomes has yet.
abbrev pub open_worker : {F : Type 0} → Worker F → ℕ
open_worker (waits item id delay) = 1
open_worker (executes item) = 1
open_worker (records_retry item e delay) = 1
open_worker _ = 0

-- 1 for a worker that an exception has ended.
abbrev pub dead_worker : {F : Type 0} → Worker F → ℕ
dead_worker (died item e) = 1
dead_worker _ = 0

-- The requests whose outcome is counted.
abbrev pub settled : {F : Type 0} → Metrics F → ℕ
settled m = m.requests_succeeded + m.requests_failed_terminal

-- Where a segment leaves a worker that had the item in hand: it still has it, and a retry is within
-- the limit.
abbrev pub Lands : {F : Type 0} → ℕ → QueueItem F → Worker F → Type 0
Lands limit item (waits i id delay) = i ≡ item
Lands limit item (executes i) = i ≡ item
Lands limit item (records_retry i e delay) = (i ≡ item) × (item.attempt < limit)
Lands limit item (pushes_letter i e) = i ≡ item
Lands limit item (deletes_done i response) = i ≡ item
Lands limit item (died i e) = i ≡ item
Lands limit item _ = ⊥

module _ {F : Type 0} ⦃o : Float F⦄ (w : World F) where
  -- A segment that starts with an item in hand touches neither the registry, the items in the queue,
  -- the storage nor the configuration, and starts no reschedule. `task_done` is called exactly if the
  -- worker is not busy behind it, and the item stays open, or is counted once, or its worker died.
  pub record Ends (item : QueueItem F) (c : Client F) (out : Outcome F) : Type 0 where
    pub same_dedup : out.0.dedup ≡ c.dedup
    pub same_items : out.0.queue.items ≡ c.queue.items
    pub same_storage : out.0.storage ≡ c.storage
    pub same_cfg : out.0.cfg ≡ c.cfg
    pub no_timers : out.2 ≡ []
    pub lands : Lands c.cfg.retry.max_retries item out.1
    pub reported :
        0 < c.queue.unfinished → out.0.queue.unfinished + 1 ≡ c.queue.unfinished + busy out.1
    pub same_started : out.0.metrics.requests_started ≡ c.metrics.requests_started
    pub counted_once :
        settled out.0.metrics + open_worker out.1 + dead_worker out.1 ≡ settled c.metrics + 1
    pub letters_counted :
        out.0.metrics.dlq_pushes + c.metrics.requests_failed_terminal
        ≡ c.metrics.dlq_pushes + out.0.metrics.requests_failed_terminal
    pub retries_counted :
        out.0.metrics.retries_performed + c.metrics.requests_failed_retryable
        ≡ c.metrics.retries_performed + out.0.metrics.requests_failed_retryable

  pub dies-Ends : (item : QueueItem F) (e : PyError F) (c : Client F) → Ends item c (dies item e c)
  unfolding task_done
  dies-Ends item e c = ground arith

  pub to_retry_or_dlq-Ends :
      (item : QueueItem F) (e : PyError F) (r : Option F) (c : Client F)
      → Ends item c (to_retry_or_dlq w item e r c)
  unfolding to_retry_or_dlq task_done should_retry
  to_retry_or_dlq-Ends item e r c = ground arith

  pub acquire_round-Ends :
      (now : F) (item : QueueItem F) (id : ℕ) (delay : F) (c : Client F)
      → Ends item c (acquire_round w now item id delay c)
  unfolding acquire_round
  acquire_round-Ends now item id delay c = ground arith

  acquire_at-Ends :
      (now : F) (item : QueueItem F) (found : Result F ℕ × HostRateLimiter F) (c : Client F)
      → Ends item c (acquire_at w now item found c)
  unfolding acquire_round task_done
  acquire_at-Ends now item (err e, l) c = ground arith
  acquire_at-Ends now item (ok id, l) c = ground arith

  admitted-Ends :
      (now : F) (item : QueueItem F) (host : String) (r : Result F ⊤) (c : Client F)
      → Ends item c (admitted w now item host r c)
  admitted-Ends now item host (ok x) c =
      acquire_at-Ends now item (bucket_of now host c.rate_limiter) c
  admitted-Ends now item host (err e) c =
      let m = c.metrics in
      let ends = to_retry_or_dlq-Ends item e (retry_after_of e) (record c {
        metrics = record m { breaker_short_circuits = m.breaker_short_circuits + 1 };
      }) in
      ground (arith, ends)

  begin_at-Ends :
      (now : F) (item : QueueItem F) (host : Result F String) (c : Client F)
      → Ends item c (begin_at w now item host c)
  begin_at-Ends now item (err e) c = dies-Ends item e c
  begin_at-Ends now item (ok host) c =
      let (b, registry) = for_host host c.breakers in
      let (r, b') = before_call now b in
      let ends = admitted-Ends now item host r (record c { breakers = store host b' registry }) in
      ground (arith, ends)

  pub begin-Ends : (now : F) (item : QueueItem F) (c : Client F) → Ends item c (begin w now item c)
  unfolding begin
  begin-Ends now item c = begin_at-Ends now item (host_of w.netloc item.request.url) c

  pub executed-Ends :
      (now : F) (item : QueueItem F) (r : Result F (Response F)) (c : Client F)
      → Ends item c (executed w now item r c)
  unfolding executed
  executed-Ends now item (ok response) c = ground arith
  executed-Ends now item (err e) c = elim (Bool-cases (is_throttle e)) [
    | inl t ↦ rw t (to_retry_or_dlq-Ends item (classified e) none c)
    | inr t ↦ rw t (
        let d = on_breaker w (on_failure now) item c in
        let ends = to_retry_or_dlq-Ends item (classified e) none d in ground (arith, ends))
  ]
