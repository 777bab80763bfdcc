-- ===== src/Client/State.antt =====
-- The attributes of AsyncHardenedClient, and what its tasks have of the interpreter.
use python_async_api_barebon.Exec.{Result}
use python_async_api_barebon.Base.{ℕ, String, Bool, Option}
use python_async_api_barebon.Config.{ClientConfig}
use python_async_api_barebon.Errors.{PyError}
use python_async_api_barebon.Models.{Request, Response, Platform}
use python_async_api_barebon.Queue.{RequestQueue, QueueItem}
use python_async_api_barebon.Dedup.{InFlightRegistry}
use python_async_api_barebon.Limiter.{HostRateLimiter}
use python_async_api_barebon.Breaker.{HostCircuitBreakers}
use python_async_api_barebon.Storage.{Storage}
use python_async_api_barebon.Metrics.{Metrics}

-- `has_session` is `self._session is not None`. The tasks of the workers and of the reschedules
-- stand in the system of tasks.
pub record Client (F : Type 0) : Type 0 where
  pub cfg : ClientConfig F
  pub has_session : Bool
  pub storage : Storage F
  pub queue : RequestQueue F
  pub dedup : InFlightRegistry F (Response F)
  pub rate_limiter : HostRateLimiter F
  pub breakers : HostCircuitBreakers F
  pub stopping : Bool
  pub metrics : Metrics F

-- What comes from outside the source: the platform's texts, the host of a URL, the number that a
-- header's text stands for, and the draws of the random generator.
pub record World (F : Type 0) : Type 0 where
  pub platform : Platform F
  pub netloc : String → Result F String
  pub read_float : String → Option F
  pub uniform : F → F → F

-- Where a worker stands between two steps: the waits of `_worker`, `_handle` and
-- `_handle_retry_or_dlq`. `died` is the end by an exception that nothing catches, with the item in
-- hand; `gone` is a worker that `stop` has cancelled.
pub data Worker (F : Type 0) : Type 0 where
  idle : Worker F
  waits : QueueItem F → ℕ → F → Worker F
  executes : QueueItem F → Worker F
  records_retry : QueueItem F → PyError F → F → Worker F
  pushes_letter : QueueItem F → PyError F → Worker F
  deletes_failed : QueueItem F → PyError F → Worker F
  deletes_done : QueueItem F → Response F → Worker F
  hooks : QueueItem F → Response F → Worker F
  died : QueueItem F → PyError F → Worker F
  gone : Worker F

-- Where a task of `_reschedule` stands: asleep, waiting for room in the queue, ended after its put,
-- or ended without one because the client is stopping.
pub data Timer (F : Type 0) : Type 0 where
  sleeping : QueueItem F → F → Timer F
  putting : QueueItem F → Timer F
  done : Timer F
  dropped : QueueItem F → Timer F

-- Where a caller of `request` stands in `_submit`: before its row is written, waiting for room in
-- the queue, waiting for its future, or ended by an exception (with the request if it owns it).
pub data Caller (F : Type 0) : Type 0 where
  persists : Request F → ℕ → Caller F
  enqueues : Request F → ℕ → Caller F
  awaits : ℕ → Caller F
  refused : PyError F → Caller F
  abandons : Request F → PyError F → Caller F
