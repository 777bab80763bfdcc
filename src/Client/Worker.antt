-- ===== src/Client/Worker.antt =====
-- The steps of a worker: `_worker`, `_handle` and `_handle_retry_or_dlq`, from one wait to the next.
-- A step returns the client, where the worker then stands, and the reschedule tasks that it created.
-- The breaker and the registry wait for nothing, so the code around them is one step with theirs.
pub mod Gate
pub mod Settle
pub mod Replies
pub use Gate.{Outcome}
unfoldable pub use Gate.{to_retry_or_dlq, begin, acquire_round, executed, terminal_error}
unfoldable pub use Settle.{run_step}
pub use Settle.{Input}
